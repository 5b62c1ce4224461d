-- ===== src/Disputes/Memory/Index.antt =====
-- The invariant of the store of disputes: every dispute stands under its own identifier and is valid, a
-- transaction has at most one active dispute, and all evidence is valid and that of a stored dispute.
use konumlu.Base.{
  ℕ, ◌≡◌, Bool, true, false, ◌&&◌, Option, some, List, [], ◌∷◌, ◌==◌, arith, any, values, is_some,
  Result-cases, Bool-cases, inl, inr, lookup, lookup-insert, lookup-insert_self, subst, ok, all,
  all-append, is_ok, refl, ◌∙◌, ◌++◌, any-values_none,
}
use konumlu.Disputes.Domain.{Err, Dispute, validate, active}
use konumlu.Disputes.Evidence
use konumlu.Disputes.Evidence.{Evidence}
use konumlu.Disputes.Memory.{
  Store, new_store, active_of, may_create, create, may_update, update, stored, may_append,
  append_evidence, appended, evidence_of,
}

-- Valid evidence of a dispute.
abbrev pub is_filed : ℕ → Evidence → Bool
is_filed i e = e.dispute_id == i && is_ok (Evidence.validate e)

pub record IsExclusive (m : Store) : Type 0 where
  pub keyed : (i : ℕ) (d : Dispute) → lookup i m.by_id ≡ some d → (d.id ≡ i) × (validate d ≡ ok tt)
  pub exclusive :
      (i j : ℕ) (p q : Dispute)
      → lookup i m.by_id ≡ some p
      → lookup j m.by_id ≡ some q
      → active p.status ≡ true
      → active q.status ≡ true
      → p.transaction_id ≡ q.transaction_id
      → i ≡ j
  pub held : (i : ℕ) → all (is_filed i) (evidence_of i m) ≡ true
  pub known :
      (i : ℕ) (es : List Evidence)
      → lookup i m.evidence ≡ some es
      → is_some (lookup i m.by_id) ≡ true

pub new_store-IsExclusive : IsExclusive new_store
new_store-IsExclusive = record {
  keyed = λ i d h. absurd (cc);
  exclusive = λ i j p q h. absurd (cc);
  held = λ i. refl;
  known = λ i es h. absurd (cc);
}

-- A dispute that is stored keeps the invariant where it is valid and, if it is active, the only active
-- one of its transaction.
stored-IsExclusive :
    (d : Dispute) (m : Store)
    → IsExclusive m
    → validate d ≡ ok tt
    → ((j : ℕ) (q : Dispute)
        → lookup j m.by_id ≡ some q
        → active d.status ≡ true
        → active q.status ≡ true
        → d.transaction_id ≡ q.transaction_id
        → d.id ≡ j)
    → IsExclusive (stored d m)
stored-IsExclusive d m w v only = record {
  keyed = λ i x h. ground (arith, lookup-insert d.id i d m.by_id, w.keyed i x);
  exclusive = λ i j p q a b s t e. ground (
    arith,
    lookup-insert d.id i d m.by_id,
    lookup-insert d.id j d m.by_id,
    only i p,
    only j q,
    w.exclusive i j p q,
  );
  held = w.held;
  known = λ i es h. ground (arith, lookup-insert d.id i d m.by_id, w.known i es);
}

created :
    (ctx : Option Err) (d : Dispute) (m : Store)
    → may_create ctx d m ≡ ok tt
    → (validate d ≡ ok tt)
      × ((active d.status && any (active_of d.transaction_id) (values m.by_id)) ≡ false)
unfolding may_create
created ctx d m h = (ground arith, ground arith)

no-active :
    (d : Dispute) (m : Store) (j : ℕ) (q : Dispute)
    → (active d.status && any (active_of d.transaction_id) (values m.by_id)) ≡ false
    → lookup j m.by_id ≡ some q
    → active d.status ≡ true
    → active q.status ≡ true
    → d.transaction_id ≡ q.transaction_id
    → d.id ≡ j
no-active d m j q none_active h a b e =
    let other =
      any-values_none (active_of d.transaction_id) m.by_id j q (ground (arith, none_active, a)) h in
    absurd (ground (arith, other, b, e))

-- A create keeps the invariant, whatever its result.
pub create-IsExclusive :
    (ctx : Option Err) (d : Dispute) (m : Store) → IsExclusive m → IsExclusive (create ctx d m).1
unfolding create
create-IsExclusive ctx d m w = elim (Result-cases (may_create ctx d m)) [
  | inr (x, e) ↦ rw (e, create) w
  | inl (_, e) ↦
      let (v, n) = created ctx d m e in
      rw (e, create) (stored-IsExclusive d m w v (λ j q. no-active d m j q n))
]

pub updated :
    (ctx : Option Err) (d : Dispute) (seen : ℕ) (m : Store) (c : Dispute)
    → may_update ctx d seen m ≡ ok c
    → (validate d ≡ ok tt) × (lookup d.id m.by_id ≡ some c) × (c.updated_at ≡ seen)
unfolding may_update
updated ctx d seen m c h = (ground arith, ground arith, ground arith)

-- An update that keeps the transaction of the stored dispute, and makes none active that was not, keeps the
-- invariant, whatever its result.
pub update-IsExclusive :
    (ctx : Option Err) (d c : Dispute) (seen : ℕ) (m : Store)
    → IsExclusive m
    → lookup d.id m.by_id ≡ some c
    → c.transaction_id ≡ d.transaction_id
    → (c.updated_at ≡ seen → active d.status ≡ true → active c.status ≡ true)
    → IsExclusive (update ctx d seen m).1
unfolding update
update-IsExclusive ctx d c seen m w l same keeps = elim (Result-cases (may_update ctx d seen m)) [
  | inr (x, e) ↦ rw (e, update) w
  | inl (y, e) ↦
      let (v, k, at) = updated ctx d seen m y e in
      rw (e, update)
        (stored-IsExclusive d m w v (λ j q f a b t.
          w.exclusive d.id j c q l f (keeps (ground (arith, l, k, at)) a) b (same ∙ t)))
]

may_append-filed :
    (ctx : Option Err) (e : Evidence) (m : Store)
    → may_append ctx e m ≡ ok tt
    → (is_filed e.dispute_id e ≡ true) × (is_some (lookup e.dispute_id m.by_id) ≡ true)
unfolding may_append
may_append-filed ctx e m h = (ground arith, ground arith)

appended-held :
    (e : Evidence) (m : Store)
    → IsExclusive m
    → is_filed e.dispute_id e ≡ true
    → (i : ℕ) → all (is_filed i) (evidence_of i (appended e m)) ≡ true
appended-held e m w f i =
    let es = evidence_of e.dispute_id m in
    let inserted = lookup-insert e.dispute_id i (es ++ (e ∷ [])) m.evidence in
    elim (Bool-cases (i == e.dispute_id)) [
      | inr x ↦ ground (arith, x, inserted, w.held i)
      | inl x ↦
          let own : all (is_filed e.dispute_id) (evidence_of e.dispute_id (appended e m)) ≡ true =
            ground (
              arith,
              lookup-insert_self e.dispute_id (es ++ (e ∷ [])) m.evidence,
              all-append (is_filed e.dispute_id) es (e ∷ []),
              w.held e.dispute_id,
              f,
            ) in
          let same : e.dispute_id ≡ i = ground (arith, x) in
          subst (λ n. all (is_filed n) (evidence_of n (appended e m)) ≡ true) same own
    ]

appended-IsExclusive :
    (e : Evidence) (m : Store)
    → IsExclusive m
    → is_filed e.dispute_id e ≡ true
    → is_some (lookup e.dispute_id m.by_id) ≡ true
    → IsExclusive (appended e m)
appended-IsExclusive e m w f k = record {
  keyed = w.keyed;
  exclusive = w.exclusive;
  held = appended-held e m w f;
  known = λ i es h. ground (
    arith,
    lookup-insert e.dispute_id i (evidence_of e.dispute_id m ++ (e ∷ [])) m.evidence,
    w.known i es,
  );
}

-- Appending evidence keeps the invariant, whatever its result.
pub append_evidence-IsExclusive :
    (ctx : Option Err) (e : Evidence) (m : Store)
    → IsExclusive m
    → IsExclusive (append_evidence ctx e m).1
unfolding append_evidence
append_evidence-IsExclusive ctx e m w = elim (Result-cases (may_append ctx e m)) [
  | inr (x, r) ↦ rw (r, append_evidence) w
  | inl (_, r) ↦
      let (f, k) = may_append-filed ctx e m r in
      rw (r, append_evidence) (appended-IsExclusive e m w f k)
]
