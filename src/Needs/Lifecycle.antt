-- ===== src/Needs/Lifecycle.antt =====
-- The life of a need (domain.go), against its status diagram.
use konumlu.Base.{
  ℕ, ◌≡◌, ◌≤◌, Bool, false, not, ◌&&◌, arith, if◌then◌else◌, ok, err, Result, Result-cases, inl,
  inr,
}
use konumlu.Text.{text_eq_refl}
use konumlu.Needs.Content.{
  Err, invalid_transition, invalid_expiry, Floats, Content, content_normalized,
}
use konumlu.Needs.Content.Normal.{content_normalized_idem}
use konumlu.Needs.Domain.{
  Status, opened, fulfilled, cancelled, expired, is_draft, is_open, owner_editable, Need, validate,
  transition, update_content, open_need, fulfill, cancel, expire, is_due, set_by,
}

pub data Op : Type 0 where
  open_op fulfill_op cancel_op expire_op : Op

module _ {F : Type 0} (fl : Floats F) where
  unfoldable pub step : Op → Need F → ℕ → Result Err (Need F)
  step open_op = open_need fl
  step fulfill_op = fulfill fl
  step cancel_op = cancel fl
  step expire_op = expire fl

  -- The status diagram: from where an operation may lead, and where it leads.
  abbrev pub admits : Op → Need F → ℕ → Bool
  admits open_op n now = is_draft n.status
  admits fulfill_op n now = is_open n.status
  admits cancel_op n now = owner_editable n.status
  admits expire_op n now = owner_editable n.status && is_due n.content.expires_at now

  abbrev pub target : Op → Status
  target open_op = opened
  target fulfill_op = fulfilled
  target cancel_op = cancelled
  target expire_op = expired

  unfoldable pub expected : Op → Need F → ℕ → Result Err (Need F)
  expected op n now =
      if admits op n now
      then ok (record n { status = target op; updated_at = now })
      else err invalid_transition

  moved-valid :
      (op : Op) (n : Need F) (now : ℕ)
      → validate fl n ≡ ok tt
      → n.created_at ≤ now
      → validate fl (record n { status = target op; updated_at = now }) ≡ ok tt
  unfolding validate
  moved-valid open_op n now v le = ground arith
  moved-valid fulfill_op n now v le = ground arith
  moved-valid cancel_op n now v le = ground arith
  moved-valid expire_op n now v le = ground arith

  -- On a valid need, from its creation on, Open, Fulfill, Cancel and Expire do exactly what the
  -- status diagram says, where Expire also asks for an expiry that has come: the validation of
  -- the result never refuses it.
  pub step_need-expected :
      (op : Op) (n : Need F) (now : ℕ)
      → validate fl n ≡ ok tt
      → n.created_at ≤ now
      → step op n now ≡ expected op n now
  unfolding step open_need fulfill cancel expire transition expected
  step_need-expected open_op n now v le = ground (arith, moved-valid open_op n now v le)
  step_need-expected fulfill_op n now v le = ground (arith, moved-valid fulfill_op n now v le)
  step_need-expected cancel_op n now v le = ground (arith, moved-valid cancel_op n now v le)
  step_need-expected expire_op n now v le = ground (arith, moved-valid expire_op n now v le)

  edited-valid :
      (raw c : Content F) (n : Need F) (now : ℕ)
      → validate fl n ≡ ok tt
      → n.created_at ≤ now
      → content_normalized fl raw ≡ ok c
      → set_by c.expires_at n.created_at ≡ false
      → validate fl (record n { content = c; updated_at = now }) ≡ ok tt
  unfolding validate
  edited-valid raw c n now v le h s =
      rw (content_normalized_idem fl raw c h, text_eq_refl c.title, text_eq_refl c.description)
        (ground (arith, v))

  -- What an edit is to do with a valid need: take over the normal form of the content.
  unfoldable pub edited : Content F → Need F → ℕ → Result Err (Need F)
  edited raw n now =
      if not (owner_editable n.status)
      then err invalid_transition
      else elim (content_normalized fl raw) [
        | err e ↦ err e
        | ok c ↦
            if set_by c.expires_at n.created_at
            then err invalid_expiry
            else ok (record n { content = c; updated_at = now })
      ]

  -- On a valid need, from its creation on, UpdateContent takes over the normal form of the
  -- content exactly if the need is a draft or open, the content has a normal form and its
  -- expiry, if it has one, is after the creation; in the other cases the error is that of the
  -- first of these that fails. The validation of the result never refuses it.
  pub update_content-edited :
      (raw : Content F) (n : Need F) (now : ℕ)
      → validate fl n ≡ ok tt
      → n.created_at ≤ now
      → update_content fl raw n now ≡ edited raw n now
  unfolding update_content edited
  update_content-edited raw n now v le = elim (Result-cases (content_normalized fl raw)) [
    | inr (x, e) ↦ rw e (ground (arith, v))
    | inl (c, e) ↦ rw e (ground (arith, v, edited-valid raw c n now v le e))
  ]
