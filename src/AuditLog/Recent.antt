-- ===== src/AuditLog/Recent.antt =====
-- The query history: the newest live entries.
use asterixdb_mcp_server.Prelude.{
  ℕ, zero, suc, ◌≤◌, ◌≡◌, refl, ◌⊎◌, inl, inr, Bool, true, false, not, List, [], ◌∷◌, arith, leb,
  length, take, keep, length-take, Has, All, All-has, All-of_Has, Has-take, Has-keep, keep-Has,
  All-take, Bool-cases,
}
use asterixdb_mcp_server.Prelude.Dict.{values, Has-select, select-Has, All-select}
use asterixdb_mcp_server.AuditLog.{
  AuditEntry, AuditLog, is_expired, prune, insert_entry, newest_first, wanted, recent,
}

abbrev pub NewestFirst : List AuditEntry → Type 0
NewestFirst [] = Unit
NewestFirst (e ∷ es) = All (λ f. f.submitted_at ≤ e.submitted_at) es × NewestFirst es

Has-insert_entry :
    (a e : AuditEntry) (es : List AuditEntry) → Has a (insert_entry e es) → (a ≡ e) ⊎ Has a es
unfolding insert_entry
Has-insert_entry a e [] m = m
Has-insert_entry a e (f ∷ fs) m = elim (Bool-cases (leb f.submitted_at e.submitted_at)) [
  | inl t ↦ rw (t, insert_entry) at m
  | inr t ↦
      let m' : (a ≡ f) ⊎ Has a (insert_entry e fs) = rw (t, insert_entry) at m in
      elim m' [
        | inl here ↦ inr (inl here)
        | inr there ↦ elim (Has-insert_entry a e fs there) [ inl h ↦ inl h | inr n ↦ inr (inr n) ]
      ]
]

insert_entry-Has :
    (a e : AuditEntry) (es : List AuditEntry) → (a ≡ e) ⊎ Has a es → Has a (insert_entry e es)
unfolding insert_entry
insert_entry-Has a e [] m = m
insert_entry-Has a e (f ∷ fs) m = elim (Bool-cases (leb f.submitted_at e.submitted_at)) [
  | inl t ↦ rw (t, insert_entry) m
  | inr t ↦
      rw (t, insert_entry)
        (elim m [
          | inl h ↦ inr (insert_entry-Has a e fs (inl h))
          | inr n ↦ elim n [ inl h ↦ inl h | inr k ↦ inr (insert_entry-Has a e fs (inr k)) ]
        ])
]

Has-newest_first : (a : AuditEntry) (es : List AuditEntry) → Has a (newest_first es) → Has a es
unfolding newest_first
Has-newest_first a [] m = m
Has-newest_first a (e ∷ es) m = elim (Has-insert_entry a e (newest_first es) m) [
  | inl h ↦ inl h
  | inr n ↦ inr (Has-newest_first a es n)
]

newest_first-Has : (a : AuditEntry) (es : List AuditEntry) → Has a es → Has a (newest_first es)
unfolding newest_first
newest_first-Has a [] m = m
newest_first-Has a (e ∷ es) (inl h) = insert_entry-Has a e (newest_first es) (inl h)
newest_first-Has a (e ∷ es) (inr m) =
    insert_entry-Has a e (newest_first es) (inr (newest_first-Has a es m))

All-le_trans :
    (m n : ℕ) (es : List AuditEntry)
    → m ≤ n
    → All (λ f. f.submitted_at ≤ m) es
    → All (λ f. f.submitted_at ≤ n) es
All-le_trans m n [] h a = tt
All-le_trans m n (e ∷ es) h a = (omega (arith, a.0), All-le_trans m n es h a.1)

All-insert_entry :
    (n : ℕ) (e : AuditEntry) (es : List AuditEntry)
    → e.submitted_at ≤ n
    → All (λ f. f.submitted_at ≤ n) es
    → All (λ f. f.submitted_at ≤ n) (insert_entry e es)
All-insert_entry n e es h a =
    All-of_Has (λ f. f.submitted_at ≤ n) (insert_entry e es)
      λ f m. elim (Has-insert_entry f e es m) [
        | inl p ↦ rw p h
        | inr k ↦ All-has (λ g. g.submitted_at ≤ n) es f a k
      ]

insert_entry-NewestFirst :
    (e : AuditEntry) (es : List AuditEntry) → NewestFirst es → NewestFirst (insert_entry e es)
unfolding insert_entry
insert_entry-NewestFirst e [] s = (tt, tt)
insert_entry-NewestFirst e (f ∷ fs) s = elim (Bool-cases (leb f.submitted_at e.submitted_at)) [
  | inl t ↦
      let le : f.submitted_at ≤ e.submitted_at = ground arith in
      rw (t, insert_entry) ((le, All-le_trans f.submitted_at e.submitted_at fs le s.0), s)
  | inr t ↦
      rw (t, insert_entry)
        (All-insert_entry f.submitted_at e fs (ground arith) s.0, insert_entry-NewestFirst e fs s.1)
]

newest_first-NewestFirst : (es : List AuditEntry) → NewestFirst (newest_first es)
unfolding newest_first
newest_first-NewestFirst [] = tt
newest_first-NewestFirst (e ∷ es) =
    insert_entry-NewestFirst e (newest_first es) (newest_first-NewestFirst es)

take-NewestFirst : (n : ℕ) (es : List AuditEntry) → NewestFirst es → NewestFirst (take n es)
take-NewestFirst zero es s = tt
take-NewestFirst (suc n) [] s = tt
take-NewestFirst (suc n) (e ∷ es) s =
    (All-take (λ f. f.submitted_at ≤ e.submitted_at) n es s.0, take-NewestFirst n es s.1)

-- What `take` leaves out of a sorted list is no newer than what it keeps.
left_out :
    (n : ℕ) (es : List AuditEntry) (a : AuditEntry)
    → NewestFirst es
    → Has a es
    → Has a (take n es)
      ⊎ ((length (take n es) ≡ n) × All (λ f. a.submitted_at ≤ f.submitted_at) (take n es))
left_out zero es a s m = inr (refl, tt)
left_out (suc n) [] a s m = elim m [ ]
left_out (suc n) (e ∷ es) a s (inl h) = inl (inl h)
left_out (suc n) (e ∷ es) a s (inr m) = elim (left_out n es a s.1 m) [
  | inl k ↦ inl (inr k)
  | inr (len, older) ↦
      inr (omega (arith, len), (All-has (λ f. f.submitted_at ≤ e.submitted_at) es a s.0 m, older))
]

-- `shown` is the history that `recent` promises.
pub record IsRecent (now limit : ℕ) (failures_only : Bool) (log : AuditLog)
    (shown : List AuditEntry) : Type 0 where
  pub few : length shown ≤ limit
  pub sorted : NewestFirst shown
  pub live :
      (e : AuditEntry) → Has e shown → Has e (values log.entries) × (is_expired log now e ≡ false)
  pub matching : (e : AuditEntry) → Has e shown → wanted failures_only e ≡ true
  pub complete :
      (e : AuditEntry)
      → Has e (values log.entries)
      → is_expired log now e ≡ false
      → wanted failures_only e ≡ true
      → Has e shown ⊎ ((length shown ≡ limit) × All (λ f. e.submitted_at ≤ f.submitted_at) shown)

prune-Has :
    (now : ℕ) (log : AuditLog) (e : AuditEntry)
    → Has e (values log.entries)
    → is_expired log now e ≡ false
    → Has e (values (prune now log).entries)
unfolding prune
prune-Has now log e m h = select-Has (λ f. not (is_expired log now f)) log.entries e m (rw h)

Has-prune :
    (now : ℕ) (log : AuditLog) (e : AuditEntry)
    → Has e (values (prune now log).entries)
    → Has e (values log.entries) × (is_expired log now e ≡ false)
unfolding prune
Has-prune now log e m = (
  Has-select (λ f. not (is_expired log now f)) log.entries e m,
  All-has (λ f. is_expired log now f ≡ false) _ e
      (All-select (λ f. is_expired log now f ≡ false) (λ f. not (is_expired log now f)) log.entries
        λ f h. ground arith)
      m,
)

-- The history is the newest live entries, newest first: never more than asked for, none expired,
-- only failures where only those are asked for, and a live entry that is left out is no newer than
-- any that is shown, and is left out only because the limit was reached.
pub recent-IsRecent :
    (now limit : ℕ) (failures_only : Bool) (log : AuditLog)
    → IsRecent now limit failures_only log (recent now limit failures_only log).0
unfolding recent
recent-IsRecent now limit failures_only log = record {
  few = omega (arith, length-take limit sorted);
  sorted = take-NewestFirst limit sorted (newest_first-NewestFirst matching);
  live = λ e m. Has-prune now log e (from_shown e m).0;
  matching = λ e m. (from_shown e m).1;
  complete = λ e m alive w. left_out limit sorted e (newest_first-NewestFirst matching) (
      newest_first-Has e matching
        (keep-Has (wanted failures_only) entries e (prune-Has now log e m alive) w));
}
  where
    entries : List AuditEntry
    entries = values (prune now log).entries

    matching : List AuditEntry
    matching = keep (wanted failures_only) entries

    sorted : List AuditEntry
    sorted = newest_first matching

    from_shown :
        (e : AuditEntry)
        → Has e (take limit sorted)
        → Has e entries × (wanted failures_only e ≡ true)
    from_shown e m =
        Has-keep (wanted failures_only) entries e
          (Has-newest_first e matching (Has-take limit sorted e m))
