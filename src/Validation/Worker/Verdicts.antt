-- ===== src/Validation/Worker/Verdicts.antt =====
-- What a row holds once validate_revision (netbox_scripts/validation.py) has committed its verdict.
use netbox_scripts.Base.{
  ℕ, zero, suc, ◌≤◌, ◌≡◌, refl, sym, ap, ◌∙◌, subst, Bool, true, false, List, [], ◌∷◌, ◌++◌, Option,
  none, some, map, arith, ◌==◌, nat_eq, text_eq, All, any_of, Result, ok, err, ==→≡, Bool-cases,
  Option-cases, Result-cases, inl, inr,
}
use netbox_scripts.Text.{Text, codes}
use netbox_scripts.Unicode.{Unicode}
use netbox_scripts.Base.Int.{pos}
use netbox_scripts.Json.{Value, int, obj, arr, items, listed, get, Fields}
use netbox_scripts.Manifest.{Bytes}
use netbox_scripts.Manifest.Validate.{missing_in}
use netbox_scripts.ScriptFiles.{
  ScriptFile, Claimed, nothing_claimed, sound_id, check_id, check_fields, unexpected_in, entry_keys,
  validate_entry, validate_entries, validate_script_file_snapshot, accept,
}
use netbox_scripts.Corrupt.{Reason}
use netbox_scripts.Introspection.{Published, validate_discovered_scripts}
use netbox_scripts.Lifecycle.{Revision, Rows, with_pk, find_revision, valid, invalid}
use netbox_scripts.Lifecycle.Consistent.{NodupPks, NodupPks-update_where, find-update_where}
use netbox_scripts.Validation.{Verdict, accepted, rejected, verdict_status, owned, claim, finalize}
use netbox_scripts.Validation.Judging.{
  Cause, Loaded, Messages, Judged, Failure, nothing_judged, judge, conclude, all_failures,
  verdict_of, published_of,
}
use netbox_scripts.Validation.Judging.Published.{accepted_publishes}
use netbox_scripts.Validation.Worker.{
  entry_file, committed, checked, claimed, run_entries, validate_revision, Run, commit,
}

append_nil : (rs ss : List Reason) → rs ++ ss ≡ [] → (rs ≡ []) × (ss ≡ [])
append_nil [] ss h = (refl, h)
append_nil (r ∷ rs) ss h = cc

sound_id_positive : (v : Option Value) (pk : ℕ) → sound_id v ≡ some pk → 1 ≤ pk
sound_id_positive none pk h = cc
sound_id_positive (some (int (pos zero))) pk h = cc
sound_id_positive (some (int (pos (suc n)))) pk h = ground (arith, h)
sound_id_positive (some _) pk h = cc

module _ (u : Unicode) where
  fields_positive :
      (index : ℕ) (fs : Fields) (c : Claimed) (missing unexpected : List Text)
      → (check_fields u index fs c missing unexpected).0 ≡ []
      → 1 ≤ (entry_file (obj fs)).pk
  unfolding check_id
  fields_positive index fs c (k ∷ missing) unexpected clean = cc
  fields_positive index fs c [] (k ∷ unexpected) clean = cc
  fields_positive index fs c [] [] clean =
      elim (Option-cases (sound_id (get (codes "script_file") fs))) [
        | inl unsound ↦ ground (arith, clean, unsound)
        | inr (pk, sound) ↦ rw (sound) (sound_id_positive (get (codes "script_file") fs) pk sound)
      ]

  entry_positive :
      (index : ℕ) (v : Value) (c : Claimed)
      → (validate_entry u index v c).0 ≡ []
      → 1 ≤ (entry_file v).pk
  unfolding validate_entry check_id
  entry_positive index (obj fs) c clean =
      fields_positive index fs c (missing_in fs entry_keys) (unexpected_in fs) clean
  entry_positive index _ c clean = cc

  entries_positive :
      (index : ℕ) (vs : List Value) (previous : Option Text) (c : Claimed)
      → (validate_entries u index vs previous c).0 ≡ []
      → All (λ (f : ScriptFile). 1 ≤ f.pk) (map entry_file vs)
  unfolding validate_entries
  entries_positive index [] previous c clean = tt
  entries_positive index (v ∷ vs) previous c clean =
      let (one, later) = append_nil _ _ clean in
      let (_, more) = append_nil _ _ later in
      (entry_positive index v c one, entries_positive (suc index) vs _ _ more)

  accept_ok :
      (sha256 : Bytes → Text) (snapshot : List Value) (reasons : List Reason) (vs : List Value)
      → accept u sha256 snapshot reasons ≡ ok vs
      → (reasons ≡ []) × (snapshot ≡ vs)
  accept_ok sha256 snapshot [] vs h = (refl, ground (arith, h))
  accept_ok sha256 snapshot (r ∷ rs) vs h = cc

  -- The entries of an accepted snapshot have positive keys.
  accepted_positive :
      (sha256 : Bytes → Text) (snapshot : Value) (digest : Text) (vs : List Value)
      → validate_script_file_snapshot u sha256 snapshot digest ≡ ok vs
      → All (λ (f : ScriptFile). 1 ≤ f.pk) (map entry_file vs)
  unfolding validate_script_file_snapshot
  accepted_positive sha256 (arr xs) digest vs h =
      let (none_wrong, same) = accept_ok sha256 (listed xs) _ vs h in
      let (sound, _) = append_nil _ _ none_wrong in
      let (clean, _) = append_nil _ _ sound in
      subst (λ ws. All (λ (f : ScriptFile). 1 ≤ f.pk) (map entry_file ws)) same
        (entries_positive 0 (listed xs) none nothing_claimed clean)
  accepted_positive sha256 _ digest vs h = cc

any-with_pk :
    (pk job : ℕ) (rs : List Revision)
    → any_of (with_pk pk (owned job)) rs ≡ true
    → any_of (λ (r : Revision). r.pk == pk) rs ≡ true
any-with_pk pk job [] h = h
any-with_pk pk job (r ∷ rs) h = ground (arith, h, any-with_pk pk job rs)

-- The one row under a key that a run owns.
owner_found :
    (pk job : ℕ) (rs : List Revision)
    → NodupPks rs
    → any_of (with_pk pk (owned job)) rs ≡ true
    → (r : Revision) × (find_revision pk rs ≡ some r) × (with_pk pk (owned job) r ≡ true)
unfolding find_revision
owner_found pk job [] distinct h = cc
owner_found pk job (r ∷ rs) distinct h = elim (Bool-cases (r.pk == pk)) [
  | inl here ↦
      let others : any_of (λ (s : Revision). s.pk == pk) rs ≡ false =
        subst (λ k. any_of (λ (s : Revision). s.pk == k) rs ≡ false) (==→≡ r.pk pk here)
          distinct.0 in
      (
        r,
        rw (here) refl,
        elim (Bool-cases (any_of (with_pk pk (owned job)) rs)) [
          | inl again ↦ ground (arith, others, any-with_pk pk job rs again)
          | inr alone ↦ ground (arith, h, alone)
        ],
      )
  | inr there ↦
      let (s, found, owns) = owner_found pk job rs distinct.1 (ground (arith, h, there)) in
      (s, rw (there) found, owns)
]

-- What a committed verdict leaves on the row.
record Holds (verdict : Verdict) (errors scripts : Value) (pk : ℕ) (w : Rows) : Type 0 where
  row : Revision
  found : find_revision pk w.revisions ≡ some row
  status : row.status ≡ verdict_status verdict
  reported : row.validation_errors ≡ errors
  published : row.discovered_scripts ≡ scripts

committed_lem :
    (verdict v : Verdict) (p : Bool × Rows) (w' : Rows)
    → committed verdict p ≡ (ok (some v), w')
    → (p.0 ≡ true) × (verdict ≡ v) × (p.1 ≡ w')
committed_lem verdict v (true, w) w' h = (refl, ground (arith, h), ap (λ (r : Run). r.1) h)
committed_lem verdict v (false, w) w' h = ground (arith, h)

module _ (pk job : ℕ) where
  finalize-Holds :
      (verdict : Verdict) (errors scripts : Value) (w : Rows)
      → NodupPks w.revisions
      → (finalize pk job verdict errors scripts w).0 ≡ true
      → Holds verdict errors scripts pk (finalize pk job verdict errors scripts w).1
  unfolding finalize
  finalize-Holds verdict errors scripts w distinct h =
      let (r, found, owns) = owner_found pk job w.revisions distinct h in
      let change : Revision → Revision = λ s. record s {
        status = verdict_status verdict;
        validation_errors = errors;
        discovered_scripts = scripts;
      } in
      record {
        row = change r;
        found =
            rw (found, owns) at
              (find-update_where (with_pk pk (owned job)) change (λ s. refl) pk w.revisions);
        status = refl;
        reported = refl;
        published = refl;
      }

  committed-Holds :
      (verdict v : Verdict) (errors scripts : Value) (w w' : Rows)
      → NodupPks w.revisions
      → committed verdict (finalize pk job verdict errors scripts w) ≡ (ok (some v), w')
      → (verdict ≡ v) × Holds verdict errors scripts pk w'
  committed-Holds verdict v errors scripts w w' distinct h =
      let (own, same, last) =
        committed_lem verdict v (finalize pk job verdict errors scripts w) w' h in
      (
        same,
        subst (Holds verdict errors scripts pk) last
            (finalize-Holds verdict errors scripts w distinct own),
      )

-- A VALID row publishes scripts that activation accepts, an INVALID one publishes none.
abbrev pub Settles : List Text → Verdict → Revision → Type 0
Settles choices accepted row =
    (row.status ≡ valid)
    × ((ps : List Published) × (validate_discovered_scripts choices row.discovered_scripts ≡ ok ps))
Settles choices rejected row = (row.status ≡ invalid) × (row.discovered_scripts ≡ arr (items []))

pub record Stands (choices : List Text) (verdict : Verdict) (pk : ℕ) (w : Rows) : Type 0 where
  pub row : Revision
  pub found : find_revision pk w.revisions ≡ some row
  pub settled : Settles choices verdict row

rejects_all :
    (fs : List Failure) (records : List Value)
    → verdict_of fs ≡ rejected
    → published_of fs records ≡ []
rejects_all [] records h = cc
rejects_all (f ∷ fs) records h = refl

rejected_publishes :
    (entries : List ScriptFile) (j : Judged) (errors : List Failure) (records : List Value)
    → conclude entries j ≡ (rejected, errors, records)
    → records ≡ []
unfolding conclude
rejected_publishes entries j errors records h =
    sym (ap (λ (x : Verdict × List Failure × List Value). x.2) h)
    ∙ rejects_all (all_failures entries j) j.records
        (ap (λ (x : Verdict × List Failure × List Value). x.0) h)

none_published :
    (choices : List Text) → validate_discovered_scripts choices (arr (items [])) ≡ ok []
unfolding validate_discovered_scripts
none_published choices = refl

module _ (pk job : ℕ) (meanwhile : Rows → Rows)
    (keeps : (w : Rows) → NodupPks w.revisions → NodupPks (meanwhile w).revisions) (u : Unicode)
    (sha256 : Bytes → Text) (choices : List Text) (sanitize : Text → Text) (messages : Messages)
    (content : Revision → Cause → Bool) (load : Revision → Text → Loaded) where
  commit-Stands :
      (row : Revision) (entries : List ScriptFile) (j : Judged) (w w' : Rows) (verdict : Verdict)
      → All (λ (f : ScriptFile). 1 ≤ f.pk) entries
      → NodupPks w.revisions
      → judge choices sanitize messages (content row) (load row) entries nothing_judged ≡ ok j
      → commit pk job meanwhile entries j w ≡ (ok (some verdict), w')
      → Stands choices verdict pk w'
  commit-Stands row entries j w w' accepted first distinct judged h =
      let (same, holds) =
        committed-Holds pk job _ accepted _ _ (meanwhile w) w' (keeps w distinct) h in
      let end = conclude entries j in
      let whole : end ≡ (accepted, end.1, end.2) = ap (λ v. (v, end.1, end.2)) same in
      let (_, _, (ps, reads)) =
        accepted_publishes choices sanitize messages (content row) (load row) entries j end.1 end.2
          first judged whole in
      record {
        row = holds.row;
        found = holds.found;
        settled = (
          holds.status ∙ ap verdict_status same,
          (
            ps,
            subst (λ s. validate_discovered_scripts choices s ≡ ok ps) (sym holds.published) reads,
          ),
        );
      }
  commit-Stands row entries j w w' rejected first distinct judged h =
      let (same, holds) =
        committed-Holds pk job _ rejected _ _ (meanwhile w) w' (keeps w distinct) h in
      let end = conclude entries j in
      let whole : end ≡ (rejected, end.1, end.2) = ap (λ v. (v, end.1, end.2)) same in
      record {
        row = holds.row;
        found = holds.found;
        settled = (
          holds.status ∙ ap verdict_status same,
          holds.published
              ∙ ap (λ rs. arr (items rs)) (rejected_publishes entries j end.1 end.2 whole),
        );
      }

  run-Stands :
      (row : Revision) (entries : List ScriptFile) (w w' : Rows) (verdict : Verdict)
      → All (λ (f : ScriptFile). 1 ≤ f.pk) entries
      → NodupPks w.revisions
      → run_entries pk job meanwhile u sha256 choices sanitize messages content load row entries w
        ≡ (ok (some verdict), w')
      → Stands choices verdict pk w'
  unfolding run_entries
  run-Stands row [] w w' accepted first distinct h =
      let (_, holds) =
        committed-Holds pk job accepted accepted _ _ (meanwhile w) w' (keeps w distinct) h in
      record {
        row = holds.row;
        found = holds.found;
        settled = (
          holds.status,
          (
            [],
            subst (λ s. validate_discovered_scripts choices s ≡ ok []) (sym holds.published)
                (none_published choices),
          ),
        );
      }
  run-Stands row [] w w' rejected first distinct h =
      let (same, _) =
        committed-Holds pk job accepted rejected _ _ (meanwhile w) w' (keeps w distinct) h in
      cc
  run-Stands row (entry ∷ entries) w w' verdict first distinct h =
      let found = entry ∷ entries in
      elim (Result-cases
        (judge choices sanitize messages (content row) (load row) found nothing_judged)) [
          | inr (reason, stopped) ↦ let impossible = ap (λ (r : Run). r.0) (rw (stopped) at h) in cc
          | inl (j, judged) ↦
              commit-Stands row found j w w' verdict first distinct judged (rw (judged) at h)
        ]

  checked-Stands :
      (row : Revision) (w w' : Rows) (verdict : Verdict)
      (snapshot : Result (List Reason) (List Value))
      → (manifest : Result (List Reason) (Unit {0}))
      → validate_script_file_snapshot u sha256 row.script_file_snapshot row.script_file_digest
        ≡ snapshot
      → NodupPks w.revisions
      → checked pk job meanwhile u sha256 choices sanitize messages content load row w snapshot
          manifest
        ≡ (ok (some verdict), w')
      → Stands choices verdict pk w'
  checked-Stands row w w' verdict (ok entries) (ok _) sound distinct h =
      run-Stands row (map entry_file entries) w w' verdict
        (accepted_positive u sha256 row.script_file_snapshot row.script_file_digest entries sound)
        distinct h
  checked-Stands row w w' verdict (err reasons) manifest sound distinct h =
      let impossible = ap (λ (r : Run). r.0) h in cc
  checked-Stands row w w' verdict (ok entries) (err reasons) sound distinct h =
      let impossible = ap (λ (r : Run). r.0) h in cc

  claimed-Stands :
      (row : Option Revision) (w w' : Rows) (verdict : Verdict)
      → NodupPks w.revisions
      → claimed pk job meanwhile u sha256 choices sanitize messages content load row w
        ≡ (ok (some verdict), w')
      → Stands choices verdict pk w'
  claimed-Stands none w w' verdict distinct h = let impossible = ap (λ (r : Run). r.0) h in cc
  claimed-Stands (some row) w w' verdict distinct h =
      checked-Stands row w w' verdict _ _ refl distinct h

  claim-NodupPks :
      (now : ℕ) (w : Rows) → NodupPks w.revisions → NodupPks (claim pk job now w).1.revisions
  unfolding claim
  claim-NodupPks now w distinct = NodupPks-update_where _ _ (λ r. refl) w.revisions distinct

  -- If validate_revision commits a verdict, the row that it claimed holds it then: a VALID row's published
  -- scripts are accepted by the check that activation makes, an INVALID row publishes none. This is so
  -- whatever other workers do to the rows meanwhile, provided that no two rows share a key.
  pub verdict-Stands :
      (now : ℕ) (w w' : Rows) (verdict : Verdict)
      → NodupPks w.revisions
      → validate_revision pk job meanwhile u sha256 choices sanitize messages content load now w
        ≡ (ok (some verdict), w')
      → Stands choices verdict pk w'
  unfolding validate_revision
  verdict-Stands now w w' verdict distinct h =
      let run = claim pk job now w in
      elim (Bool-cases run.0) [
        | inr off ↦ let impossible = ap (λ (r : Run). r.0) (rw (off) at h) in cc
        | inl on ↦
            claimed-Stands (find_revision pk run.1.revisions) run.1 w' verdict
              (claim-NodupPks now w distinct) (rw (on) at h)
      ]
