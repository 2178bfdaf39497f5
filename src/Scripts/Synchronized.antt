-- ===== src/Scripts/Synchronized.antt =====
-- What `synchronize_scripts` of netbox_scripts/activation.py leaves in a project's Script rows.
use netbox_scripts.Base.{
  ℕ, ◌+◌, ◌≡◌, refl, sym, ap, ◌∙◌, Bool, true, false, List, [], ◌∷◌, Option, none, some, arith,
  if◌then◌else◌, nat_eq, text_eq, first_where, Bool-cases, inl, inr,
}
use netbox_scripts.Json.{value_eq}
use netbox_scripts.Introspection.{Published, Identity, same_identity, identity_of, has_identity}
use netbox_scripts.Lifecycle.{ScriptRow, points_at}
use netbox_scripts.Scripts.{
  row_identity, differs, republish, create_row, publish_one, publish_all, identities, retire_rest,
  synchronize,
}

-- The row with an identity.
abbrev pub row_at : Identity → List ScriptRow → Option ScriptRow
row_at i = first_where (λ (row : ScriptRow). same_identity i (row_identity row))

-- What one record makes of the row with its identity.
abbrev pub shown : ℕ → ℕ → Published → Option ScriptRow → ScriptRow
shown pk revision p none = create_row pk revision p
shown pk revision p (some row) = republish revision p row

pub same_identity-eq : (i j : Identity) → same_identity i j ≡ true → i ≡ j
same_identity-eq (m, c) (n, d) h = ground arith

pub same_identity_refl : (i : Identity) → same_identity i i ≡ true
same_identity_refl (m, c) = ground arith

pub same_identity_comm : (i j : Identity) → same_identity i j ≡ same_identity j i
same_identity_comm (m, c) (n, d) = ground arith

points_at→≡ : (pointer : Option ℕ) (pk : ℕ) → points_at pointer pk ≡ true → pointer ≡ some pk
points_at→≡ none pk h = cc
points_at→≡ (some p) pk h = ground arith

-- A row that `_save_changes` leaves alone has the published values already.
republish-same :
    (revision : ℕ) (p : Published) (row : ScriptRow)
    → differs revision p row ≡ false
    → republish revision p row ≡ row
unfolding differs republish
republish-same revision p row h = ground (arith, points_at→≡ row.last_seen_revision revision)

republish-identity :
    (revision : ℕ) (p : Published) (row : ScriptRow)
    → row_identity (republish revision p row) ≡ row_identity row
unfolding republish
republish-identity revision p row = refl

create_row-identity :
    (pk revision : ℕ) (p : Published) → row_identity (create_row pk revision p) ≡ identity_of p
unfolding create_row
create_row-identity pk revision p = refl

publish_one-row_at :
    (pk revision : ℕ) (p : Published) (rows : List ScriptRow) (i : Identity)
    → row_at i (publish_one pk revision p rows).0 ≡ (
        if same_identity i (identity_of p)
        then some (shown pk revision p (row_at i rows))
        else row_at i rows)
unfolding publish_one
publish_one-row_at pk revision p [] i = ground (arith, create_row-identity pk revision p)
publish_one-row_at pk revision p (row ∷ rows) i =
    elim (Bool-cases (same_identity (row_identity row) (identity_of p))) [
      | inr other ↦ elim (Bool-cases (same_identity i (row_identity row))) [
        | inr past ↦ rw (other, past, publish_one) (publish_one-row_at pk revision p rows i)
        | inl at ↦
            let e : i ≡ row_identity row = same_identity-eq i (row_identity row) at in
            let off : same_identity i (identity_of p) ≡ false =
              ap (λ k. same_identity k (identity_of p)) e ∙ other in
            rw (other, at, off, publish_one) refl
      ]
      | inl here ↦
          let e : row_identity row ≡ identity_of p = same_identity-eq _ _ here in
          let same : same_identity i (identity_of p) ≡ same_identity i (row_identity row) =
            ap (same_identity i) (sym e) in
          ground
            (arith, here, same, republish-identity revision p row, republish-same revision p row)
    ]

-- Records have distinct identities.
abbrev pub NoRepeat : List Published → Type 0
NoRepeat [] = Unit
NoRepeat (p ∷ ps) = (has_identity (identity_of p) (identities ps) ≡ false) × NoRepeat ps

-- The record with an identity.
abbrev pub record_at : Identity → List Published → Option Published
record_at i = first_where (λ (p : Published). same_identity i (identity_of p))

record_at-none :
    (i : Identity) (ps : List Published)
    → has_identity i (identities ps) ≡ false
    → record_at i ps ≡ none
record_at-none i [] h = refl
record_at-none i (p ∷ ps) h = ground (arith, record_at-none i ps)

pub record_at-some :
    (i : Identity) (ps : List Published) (p : Published)
    → record_at i ps ≡ some p
    → has_identity i (identities ps) ≡ true
record_at-some i [] p h = cc
record_at-some i (q ∷ ps) p h = ground (arith, record_at-some i ps p)

record_at-not_named :
    (i : Identity) (ps : List Published)
    → record_at i ps ≡ none
    → has_identity i (identities ps) ≡ false
record_at-not_named i [] h = refl
record_at-not_named i (p ∷ ps) h = ground (arith, record_at-not_named i ps)

publish_all-other :
    (pk revision : ℕ) (ps : List Published) (rows : List ScriptRow) (i : Identity)
    → record_at i ps ≡ none
    → row_at i (publish_all pk revision ps rows).0 ≡ row_at i rows
unfolding publish_all
publish_all-other pk revision [] rows i h = refl
publish_all-other pk revision (p ∷ ps) rows i h =
    elim (Bool-cases (same_identity i (identity_of p))) [
      | inl here ↦ ground (arith, here)
      | inr there ↦
          publish_all-other (pk + 1) revision ps (publish_one pk revision p rows).0 i
            (ground (arith, there))
          ∙ publish_one-row_at pk revision p rows i
          ∙ rw there refl
    ]

pub publish_all-row_at :
    (pk revision : ℕ) (ps : List Published) (rows : List ScriptRow) (i : Identity) (p : Published)
    → NoRepeat ps
    → record_at i ps ≡ some p
    → (k : ℕ) × (row_at i (publish_all pk revision ps rows).0
        ≡ some (shown k revision p (row_at i rows)))
unfolding publish_all
publish_all-row_at pk revision [] rows i p d h = cc
publish_all-row_at pk revision (q ∷ ps) rows i p d h =
    elim (Bool-cases (same_identity i (identity_of q))) [
      | inl here ↦
          let e : i ≡ identity_of q = same_identity-eq i (identity_of q) here in
          let it : q ≡ p = ground (arith, here) in
          let later : record_at i ps ≡ none =
            record_at-none i ps (ap (λ j. has_identity j (identities ps)) e ∙ d.0) in
          (
            pk,
            publish_all-other (pk + 1) revision ps (publish_one pk revision q rows).0 i later
                ∙ publish_one-row_at pk revision q rows i
                ∙ rw here (ap (λ r. some (shown pk revision r (row_at i rows))) it),
          )
      | inr there ↦
          let past : row_at i (publish_one pk revision q rows).0 ≡ row_at i rows =
            publish_one-row_at pk revision q rows i ∙ rw there refl in
          let (k, known) =
            publish_all-row_at (pk + 1) revision ps (publish_one pk revision q rows).0 i p d.1
              (ground (arith, there)) in
          (k, known ∙ ap (λ o. some (shown k revision p o)) past)
    ]

abbrev pub retired_row : ScriptRow → ScriptRow
retired_row row = record row { is_retired = true }

abbrev pub retired_unless : Bool → Option ScriptRow → Option ScriptRow
retired_unless named none = none
retired_unless named (some row) = some (if named then row else retired_row row)

retire_rest-row_at :
    (named : List Identity) (rows : List ScriptRow) (i : Identity)
    → row_at i (retire_rest named rows).0 ≡ retired_unless (has_identity i named) (row_at i rows)
unfolding retire_rest
retire_rest-row_at named [] i = refl
retire_rest-row_at named (row ∷ rows) i = elim (Bool-cases (same_identity i (row_identity row))) [
  | inr past ↦ ground (arith, past, retire_rest-row_at named rows i)
  | inl at ↦
      let e : has_identity i named ≡ has_identity (row_identity row) named =
        ap (λ j. has_identity j named) (same_identity-eq i (row_identity row) at) in
      ground (arith, at, e)
]

pub synchronize-shown :
    (pk revision : ℕ) (records : List Published) (rows : List ScriptRow) (i : Identity)
    (p : Published)
    → NoRepeat records
    → record_at i records ≡ some p
    → (k : ℕ) × (row_at i (synchronize pk revision records rows).0
        ≡ some (shown k revision p (row_at i rows)))
unfolding synchronize
synchronize-shown pk revision records rows i p d h =
    let (k, published) = publish_all-row_at pk revision records rows i p d h in
    (
      k,
      retire_rest-row_at (identities records) (publish_all pk revision records rows).0 i
          ∙ rw (record_at-some i records p h, published) refl,
    )

-- A row shows what a record of a revision publishes.
pub record Shows (revision : ℕ) (p : Published) (row : ScriptRow) : Type 0 where
  pub display_name : row.display_name ≡ p.display_name
  pub description : row.description ≡ p.description
  pub metadata : row.metadata ≡ p.metadata
  pub in_service : row.is_retired ≡ false
  pub last_seen : row.last_seen_revision ≡ some revision

-- The row is the one of before, with its key and its switch, or a new one that is switched on.
abbrev pub Continues : Option ScriptRow → ScriptRow → Type 0
Continues none row = row.enabled ≡ true
Continues (some old) row = (row.pk ≡ old.pk) × (row.enabled ≡ old.enabled)

shown-Shows :
    (k revision : ℕ) (p : Published) (o : Option ScriptRow)
    → Shows revision p (shown k revision p o)
unfolding republish create_row
shown-Shows k revision p none = record {
  display_name = refl;
  description = refl;
  metadata = refl;
  in_service = refl;
  last_seen = refl;
}
shown-Shows k revision p (some row) = record {
  display_name = refl;
  description = refl;
  metadata = refl;
  in_service = refl;
  last_seen = refl;
}

shown-Continues :
    (k revision : ℕ) (p : Published) (o : Option ScriptRow) → Continues o (shown k revision p o)
unfolding republish create_row
shown-Continues k revision p none = refl
shown-Continues k revision p (some row) = (refl, refl)

-- If the records have distinct identities, there is after the synchronization a row with the identity
-- of each record: it shows what the record publishes and is not retired, and it is the row of before
-- with its key and its switch, or a new one that is switched on.
pub synchronize-published :
    (pk revision : ℕ) (records : List Published) (rows : List ScriptRow) (i : Identity)
    (p : Published)
    → NoRepeat records
    → record_at i records ≡ some p
    → (row : ScriptRow) × (row_at i (synchronize pk revision records rows).0 ≡ some row)
      × Shows revision p row
      × Continues (row_at i rows) row
synchronize-published pk revision records rows i p d h =
    let (k, found) = synchronize-shown pk revision records rows i p d h in
    let old = row_at i rows in
    (shown k revision p old, found, shown-Shows k revision p old, shown-Continues k revision p old)

-- The row with an identity that no record has is the row of before, retired, and none is created.
pub synchronize-retired :
    (pk revision : ℕ) (records : List Published) (rows : List ScriptRow) (i : Identity)
    → record_at i records ≡ none
    → row_at i (synchronize pk revision records rows).0 ≡ retired_unless false (row_at i rows)
unfolding synchronize
synchronize-retired pk revision records rows i h =
    retire_rest-row_at (identities records) (publish_all pk revision records rows).0 i
    ∙ rw (record_at-not_named i records h)
        (ap (retired_unless false) (publish_all-other pk revision records rows i h))
