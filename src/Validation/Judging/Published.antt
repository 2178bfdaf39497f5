-- ===== src/Validation/Judging/Published.antt =====
-- What the loop of validate_revision (netbox_scripts/validation.py) publishes, and its return trip.
use netbox_scripts.Base.{
  ℕ, suc, ◌+◌, ◌≤◌, ◌≡◌, ◌≢◌, ◌⊎◌, refl, sym, ap, ◌∙◌, Bool, false, List, [], ◌∷◌, ◌++◌, none, map,
  arith, length, ◌==◌, nat_eq, text_eq, All, Result, ok, err, >>=-eq-ok, refuse, Option-cases,
  Bool-cases, inl, inr, subst,
}
use netbox_scripts.Text.{Text}
use netbox_scripts.Json.{Value, arr, items, listed-items}
use netbox_scripts.ScriptFiles.{ScriptFile}
use netbox_scripts.Declarations.{DiscoveryStatus, discovered, failed}
use netbox_scripts.Introspection.{
  MetadataCode, Published, Identity, identity_of, same_identity, has_identity, validate_record,
  validate_records, validate_discovered_scripts, duplicate_identity,
}
use netbox_scripts.Introspection.Describe.{
  Discovered, Described, described, faulty, escaped, describe_script, describe-validates,
  published_as,
}
use netbox_scripts.Validation.{accepted}
use netbox_scripts.Validation.Judging.{
  Cause, Loaded, loaded, refused, import_failed, raised, Messages, Failure, add_failure, Judged,
  nothing_judged, class_of, add_record, collect_publications, set_outcome, judge_entry, judge,
  all_failures, verdict_of, conclude, settle,
}

abbrev identities_of : List Published → List Identity
identities_of = map identity_of

-- The records are read back one by one, and the table of identities knows every one of them.
pub record IsReadable (choices : List Text) (j : Judged) : Type 0 where
  pub read : List Published
  pub reads : validate_records choices 0 j.records [] ≡ ok read
  pub known :
      (i : Identity) → class_of i j.identities ≡ none → has_identity i (identities_of read) ≡ false

from_zero : (n : ℕ) → 0 + n ≡ n
from_zero n = omega arith

plus_zero : (n : ℕ) → n + 0 ≡ n
plus_zero n = omega arith

shifted : (m n : ℕ) → suc m + n ≡ m + suc n
shifted m n = omega arith

module _ (choices : List Text) where
  -- One more record behind the ones that are read already.
  validate_records-append :
      (index : ℕ) (vs : List Value) (ids : List Identity) (ps : List Published) (v : Value)
      (p : Published)
      → validate_records choices index vs ids ≡ ok ps
      → validate_record choices (length vs + index) v ≡ ok p
      → has_identity (identity_of p) ids ≡ false
      → has_identity (identity_of p) (identities_of ps) ≡ false
      → validate_records choices index (vs ++ (v ∷ [])) ids ≡ ok (ps ++ (p ∷ []))
  unfolding validate_records
  validate_records-append index [] ids ps v p all one free fresh =
      let here : validate_record choices index v ≡ ok p =
        subst (λ n. validate_record choices n v ≡ ok p) (from_zero index) one in
      let nothing : ps ≡ [] = ground (arith, all) in rw (here, free, nothing) refl
  validate_records-append index (w ∷ vs) ids ps v p all one free fresh =
      let (q, first, then_refuse) = >>=-eq-ok (validate_record choices index w) _ all in
      let (_, unseen, then_rest) =
        >>=-eq-ok (refuse (has_identity (identity_of q) ids) duplicate_identity) _ then_refuse in
      let (rest, later, last) =
        >>=-eq-ok (validate_records choices (suc index) vs (identity_of q ∷ ids)) _ then_rest in
      let whole : q ∷ rest ≡ ps = ground (arith, last) in
      let known =
        subst (λ xs. has_identity (identity_of p) (identities_of xs) ≡ false) (sym whole) fresh in
      let at : validate_record choices (length vs + suc index) v ≡ ok p =
        subst (λ n. validate_record choices n v ≡ ok p) (shifted (length vs) index) one in
      let more =
        validate_records-append (suc index) vs (identity_of q ∷ ids) rest v p later at
          (ground (arith, known, free)) (ground (arith, known)) in
      rw (first, unseen, more) (ap (λ xs. ok (xs ++ (p ∷ []))) whole)

has_identity-append :
    (i : Identity) (ps : List Published) (p : Published)
    → has_identity i (identities_of ps) ≡ false
    → same_identity i (identity_of p) ≡ false
    → has_identity i (identities_of (ps ++ (p ∷ []))) ≡ false
has_identity-append i [] p h k = ground (arith, k)
has_identity-append i (q ∷ ps) p h k = ground (arith, h, has_identity-append i ps p)

module _ (choices : List Text) where
  add_record-IsReadable :
      (entry : ScriptFile) (d : Discovered) (v : Value) (j : Judged)
      → 1 ≤ entry.pk
      → class_of (d.logical_module, d.name) j.identities ≡ none
      → describe_script choices d entry.pk entry.source_path (length j.records) ≡ described v
      → IsReadable choices j
      → IsReadable choices (add_record d v j)
  add_record-IsReadable entry d v j first new made h =
      let (timeout, sound) =
        describe-validates choices d entry.pk entry.source_path (length j.records) v first made in
      let p = published_as d timeout in
      let at : validate_record choices (length j.records + 0) v ≡ ok p =
        subst (λ n. validate_record choices n v ≡ ok p) (sym (plus_zero (length j.records)))
          sound in
      record {
        read = h.read ++ (p ∷ []);
        reads =
            validate_records-append choices 0 j.records [] h.read v p h.reads at refl
              (h.known (d.logical_module, d.name) new);
        known = λ i unknown.
            has_identity-append i h.read p (h.known i (ground (arith, unknown)))
              (ground (arith, unknown));
      }

  failure-IsReadable :
      (f : Failure) (j : Judged) → IsReadable choices j → IsReadable choices (add_failure f j)
  failure-IsReadable f j h = record { read = h.read; reads = h.reads; known = h.known }

  Described-cases :
      (r : Described)
      → ((v : Value) × (r ≡ described v))
        ⊎ (((c : MetadataCode) × (r ≡ faulty c)) ⊎ ((s : Text) × (r ≡ escaped s)))
  Described-cases (described v) = inl (v, refl)
  Described-cases (faulty c) = inr (inl (c, refl))
  Described-cases (escaped s) = inr (inr (s, refl))

  module _ (sanitize : Text → Text) (messages : Messages) (entry : ScriptFile)
      (first : 1 ≤ entry.pk) where
    collect-IsReadable :
        (found : List Discovered) (outcome : DiscoveryStatus) (j : Judged)
        (end : DiscoveryStatus × Judged)
        → IsReadable choices j
        → collect_publications choices sanitize messages entry found outcome j ≡ ok end
        → IsReadable choices end.1
    unfolding collect_publications
    collect-IsReadable [] outcome j end h returned =
        let same : (outcome, j) ≡ end = ground (arith, returned) in
        subst (λ r. IsReadable choices r.1) same h
    collect-IsReadable (d ∷ found) outcome j end h returned =
        elim (Option-cases (class_of (d.logical_module, d.name) j.identities)) [
          | inr (object, seen) ↦ elim (Bool-cases (object == d.cls.object)) [
            | inl same ↦
                collect-IsReadable found outcome j end h (ground (arith, returned, seen, same))
            | inr other ↦
                collect-IsReadable found failed _ end (failure-IsReadable _ j h)
                  (rw (seen, other, collect_publications) at returned)
          ]
          | inl new ↦
              elim (Described-cases
                (describe_script choices d entry.pk entry.source_path (length j.records))) [
                  | inl (v, made) ↦
                      collect-IsReadable found outcome (add_record d v j) end
                        (add_record-IsReadable entry d v j first new made h)
                        (rw (new, made, collect_publications) at returned)
                  | inr (inl (code, made)) ↦
                      collect-IsReadable found failed _ end (failure-IsReadable _ j h)
                        (rw (new, made, collect_publications) at returned)
                  | inr (inr (reason, made)) ↦ ground (arith, returned, new, made)
                ]
        ]

verdict_accepts : (fs : List Failure) → verdict_of fs ≡ accepted → fs ≡ []
verdict_accepts [] h = refl
verdict_accepts (f ∷ fs) h = cc

silent_none :
    (entries : List ScriptFile) (j : Judged)
    → all_failures entries j ≡ []
    → j.records ≡ []
    → entries ≡ []
unfolding all_failures
silent_none [] j h empty = refl
silent_none (entry ∷ entries) j h empty = ground (arith, h, empty)

module _ (choices : List Text) (sanitize : Text → Text) (messages : Messages)
    (content : Cause → Bool) where
  outcome-IsReadable :
      (path : Text) (s : DiscoveryStatus) (j : Judged)
      → IsReadable choices j
      → IsReadable choices (set_outcome path s j)
  outcome-IsReadable path s j h = record { read = h.read; reads = h.reads; known = h.known }

  settle-IsReadable :
      (path : Text) (r : Result Text (DiscoveryStatus × Judged)) (j : Judged)
      → ((end : DiscoveryStatus × Judged) → r ≡ ok end → IsReadable choices end.1)
      → settle choices sanitize messages path r ≡ ok j
      → IsReadable choices j
  settle-IsReadable path (err e) j h returned = cc
  settle-IsReadable path (ok (outcome, i)) j h returned =
      let same : set_outcome path outcome i ≡ j = ground (arith, returned) in
      subst (IsReadable choices) same (outcome-IsReadable path outcome i (h (outcome, i) refl))

  returned-IsReadable :
      (i j : Judged)
      → IsReadable choices i
      → ◌≡◌ {A = Result Text Judged} (ok i) (ok j)
      → IsReadable choices j
  returned-IsReadable i j h same =
      let e : i ≡ j = ground (arith, same) in subst (IsReadable choices) e h

  judge_entry-IsReadable :
      (entry : ScriptFile) (l : Loaded) (j j' : Judged)
      → 1 ≤ entry.pk
      → IsReadable choices j
      → judge_entry choices sanitize messages content entry l j ≡ ok j'
      → IsReadable choices j'
  unfolding judge_entry
  judge_entry-IsReadable entry (loaded [] note) j j' first h returned =
      returned-IsReadable _ j' (record { read = h.read; reads = h.reads; known = h.known }) returned
  judge_entry-IsReadable entry (loaded (d ∷ found) note) j j' first h returned =
      settle-IsReadable entry.source_path
        (collect_publications choices sanitize messages entry (d ∷ found) discovered j) j'
        (λ end collected.
          collect-IsReadable choices sanitize messages entry first (d ∷ found) discovered j end h
            collected)
        returned
  judge_entry-IsReadable entry (refused code message) j j' first h returned =
      returned-IsReadable _ j' (record { read = h.read; reads = h.reads; known = h.known }) returned
  judge_entry-IsReadable entry (import_failed f) j j' first h returned =
      elim (Bool-cases (content f.cause)) [
        | inl on ↦
            returned-IsReadable _ j' (record { read = h.read; reads = h.reads; known = h.known })
              (rw (on, judge_entry) at returned)
        | inr off ↦ ground (arith, returned, off)
      ]
  judge_entry-IsReadable entry (raised reason) j j' first h returned = cc

  judge-IsReadable :
      (load : Text → Loaded) (entries : List ScriptFile) (j j' : Judged)
      → All (λ (f : ScriptFile). 1 ≤ f.pk) entries
      → IsReadable choices j
      → judge choices sanitize messages content load entries j ≡ ok j'
      → IsReadable choices j'
  unfolding judge
  judge-IsReadable load [] j j' first h returned =
      let same : j ≡ j' = ground (arith, returned) in subst (IsReadable choices) same h
  judge-IsReadable load (entry ∷ entries) j j' first h returned =
      let (i, one, rest) =
        >>=-eq-ok (judge_entry choices sanitize messages content entry (load entry.source_path) j) _
          returned in
      judge-IsReadable load entries i j' first.1
        (judge_entry-IsReadable entry (load entry.source_path) j i first.0 h one) rest

  nothing-IsReadable : IsReadable choices nothing_judged
  unfolding validate_records
  nothing-IsReadable = record { read = []; reads = refl; known = λ i u. refl }

  -- If the loop over entries with positive keys ends and the verdict is VALID, there is no failure, a
  -- snapshot that is not empty publishes a script at least, and the published records are accepted on their
  -- return trip, so their identities are distinct.
  pub accepted_publishes :
      (load : Text → Loaded) (entries : List ScriptFile) (j : Judged) (errors : List Failure)
      (records : List Value)
      → All (λ (f : ScriptFile). 1 ≤ f.pk) entries
      → judge choices sanitize messages content load entries nothing_judged ≡ ok j
      → conclude entries j ≡ (accepted, errors, records)
      → (errors ≡ [])
        × (entries ≢ [] → records ≢ [])
        × ((ps : List Published) × (validate_discovered_scripts choices (arr (items records))
              ≡ ok ps))
  unfolding conclude validate_discovered_scripts
  accepted_publishes load entries j errors records first ended verdict =
      let h = judge-IsReadable load entries nothing_judged j first nothing-IsReadable ended in
      let none_failed : all_failures entries j ≡ [] =
        verdict_accepts (all_failures entries j) (ground (arith, verdict)) in
      let clean : errors ≡ [] = ground (arith, verdict, none_failed) in
      let whole : j.records ≡ records = ground (arith, verdict, none_failed) in
      (
        clean,
        (λ some_entry empty. some_entry (silent_none entries j none_failed (whole ∙ empty))),
        (h.read, rw (sym whole, listed-items j.records) h.reads),
      )
