-- ===== src/Scripts/Repeated.antt =====
-- A second `synchronize_scripts` (netbox_scripts/activation.py) with the same records.
use netbox_scripts.Base.{
  ℕ, ◌+◌, ◌≡◌, refl, sym, ap, ◌∙◌, Bool, true, false, ◌||◌, List, [], ◌∷◌, Option, none, some,
  arith, ==-refl, nat_eq, text_eq, length, All, Bool-cases, inl, inr,
}
use netbox_scripts.Json.{value_eq}
use netbox_scripts.Introspection.{Published, Identity, same_identity, identity_of, has_identity}
use netbox_scripts.Lifecycle.{ScriptRow}
use netbox_scripts.Scripts.{
  row_identity, differs, republish, create_row, publish_one, publish_all, identities, retire_rest,
  synchronize,
}
use netbox_scripts.Scripts.Synchronized.{
  row_at, shown, NoRepeat, record_at, same_identity-eq, same_identity_refl, same_identity_comm,
  record_at-some, synchronize-shown,
}

-- What a record has written needs no second write.
differs-shown :
    (k revision : ℕ) (p : Published) (o : Option ScriptRow)
    → differs revision p (shown k revision p o) ≡ false
unfolding differs republish create_row
differs-shown k revision p none =
    ground
      (arith, ==-refl p.display_name, ==-refl p.description, ==-refl p.metadata, ==-refl revision)
differs-shown k revision p (some row) =
    ground
      (arith, ==-refl p.display_name, ==-refl p.description, ==-refl p.metadata, ==-refl revision)

-- The row that the record names shows the published values.
abbrev IsShown : ℕ → List ScriptRow → Published → Type 0
IsShown revision rows p =
    (row : ScriptRow) × (row_at (identity_of p) rows ≡ some row) × (differs revision p row ≡ false)

publish_one-unchanged :
    (pk revision : ℕ) (p : Published) (rows : List ScriptRow) (row : ScriptRow)
    → row_at (identity_of p) rows ≡ some row
    → differs revision p row ≡ false
    → publish_one pk revision p rows ≡ (rows, 0)
unfolding publish_one
publish_one-unchanged pk revision p [] row h same = cc
publish_one-unchanged pk revision p (r ∷ rows) row h same =
    let swap = same_identity_comm (row_identity r) (identity_of p) in
    elim (Bool-cases (same_identity (identity_of p) (row_identity r))) [
      | inl here ↦ ground (arith, here, swap)
      | inr there ↦ ground (
        arith,
        there,
        swap,
        publish_one-unchanged pk revision p rows row (ground (arith, there)) same,
      )
    ]

publish_all-unchanged :
    (pk revision : ℕ) (ps : List Published) (rows : List ScriptRow)
    → All (IsShown revision rows) ps
    → publish_all pk revision ps rows ≡ (rows, 0)
unfolding publish_all
publish_all-unchanged pk revision [] rows h = refl
publish_all-unchanged pk revision (p ∷ ps) rows ((row, found, same), h) =
    rw
      (
        publish_one-unchanged pk revision p rows row found same,
        publish_all-unchanged (pk + 1) revision ps rows h,
      )
      refl

-- What holds of the record at every identity holds of every record.
All-of-record_at :
    (Q : Published → Type 0) (ps : List Published)
    → NoRepeat ps
    → ((i : Identity) (p : Published) → record_at i ps ≡ some p → i ≡ identity_of p → Q p)
    → All Q ps
All-of-record_at Q [] d f = tt
All-of-record_at Q (p ∷ ps) d f = (
  f (identity_of p) p (rw (same_identity_refl (identity_of p)) refl) refl,
  All-of-record_at Q ps d.1 (λ i q h e. elim (Bool-cases (same_identity i (identity_of p))) [
    | inl here ↦
        let named = record_at-some i ps q h in
        let at =
          ap (λ j. has_identity j (identities ps)) (same_identity-eq i (identity_of p) here) in
        absurd (ground (arith, named, at, d.0))
    | inr there ↦ f i q (rw there h) e
  ]),
)

-- A row that is named or retired already.
abbrev stays : List Identity → ScriptRow → Bool
stays named row = has_identity (row_identity row) named || row.is_retired

retire_rest-stays :
    (named : List Identity) (rows : List ScriptRow)
    → All (λ row. stays named row ≡ true) (retire_rest named rows).0
unfolding retire_rest
retire_rest-stays named [] = tt
retire_rest-stays named (row ∷ rows) = ground (arith, retire_rest-stays named rows)

retire_rest-unchanged :
    (named : List Identity) (rows : List ScriptRow)
    → All (λ row. stays named row ≡ true) rows
    → retire_rest named rows ≡ (rows, 0)
unfolding retire_rest
retire_rest-unchanged named [] h = refl
retire_rest-unchanged named (row ∷ rows) h = ground (arith, retire_rest-unchanged named rows h.1)

synchronize-IsShown :
    (pk revision : ℕ) (records : List Published) (rows : List ScriptRow)
    → NoRepeat records
    → All (IsShown revision (synchronize pk revision records rows).0) records
synchronize-IsShown pk revision records rows d = All-of-record_at _ records d (λ i p h e.
    let (k, found) = synchronize-shown pk revision records rows i p d h in
    let row = shown k revision p (row_at i rows) in
    (
      row,
      ap (λ j. row_at j (synchronize pk revision records rows).0) (sym e) ∙ found,
      differs-shown k revision p (row_at i rows),
    ))

-- Synchronizing again with the same records, whose identities are distinct, and the same revision
-- changes no row, and reports that none was written and none retired.
pub synchronize-again :
    (pk later revision : ℕ) (records : List Published) (rows : List ScriptRow)
    → NoRepeat records
    → let after = (synchronize pk revision records rows).0 in
      synchronize later revision records after
      ≡ (after, record { published = length records; retired = 0; written = 0 })
unfolding synchronize
synchronize-again pk later revision records rows d =
    let after = (synchronize pk revision records rows).0 in
    rw
      (
        publish_all-unchanged later revision records after
            (synchronize-IsShown pk revision records rows d),
        retire_rest-unchanged (identities records) after
            (retire_rest-stays (identities records) (publish_all pk revision records rows).0),
      )
      refl
