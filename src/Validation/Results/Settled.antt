-- ===== src/Validation/Results/Settled.antt =====
-- What one validation leaves on a declared file when it records its results (_persist_script_file_results of netbox_scripts/validation.py).
use netbox_scripts.Base.{
  ℕ, ◌≤◌, ◌≡◌, refl, sym, ap, ◌∙◌, ◌⊎◌, inl, inr, ⊎_elim, Bool, true, false, ◌&&◌, List, [], ◌∷◌,
  Option, none, some, if◌then◌else◌, ◌==◌, nat_eq, text_eq, any_of, arith, subst, Bool-cases,
  Option-cases, ==→≡, &&-eq-true, if-cases,
}
use netbox_scripts.Base.Dict
use netbox_scripts.Text.{Text}
use netbox_scripts.ScriptFiles.{ScriptFile}
use netbox_scripts.Declarations.{Declaration, DiscoveryStatus}
use netbox_scripts.Validation.Judging.{Failure, Judged}
use netbox_scripts.Validation.Results.{message_for, is_stale, is_named, with_result}

-- One validation that records: its revision, the entries of the snapshot and what it found.
pub record Recording : Type 0 where
  pub revision : ℕ
  pub entries : List ScriptFile
  pub failures : List Failure
  pub judged : Judged

-- Whether an entry is about a row: the same key and the same source path.
abbrev pub is_about : ℕ → Text → ScriptFile → Bool
is_about pk path entry = pk == entry.pk && path == entry.source_path

-- Which validations have which outcomes for a row.
abbrev pub Findings : Type 1
Findings = Recording → DiscoveryStatus → Type 0

-- A validation has that outcome for the row with that key and path.
abbrev pub Finds : ℕ → Text → Findings
Finds pk path run outcome =
    (any_of (is_about pk path) run.entries ≡ true)
    × (Dict.lookup path run.judged.outcomes ≡ some outcome)

-- A row with the outcome of a validation, its message and its revision.
abbrev pub showing : Recording → DiscoveryStatus → Declaration → Declaration
showing run outcome d = record d {
  discovery_status = outcome;
  discovery_error = message_for outcome d.source_path run.failures run.judged.notes;
  last_discovered_revision = some run.revision;
}

-- The validations start at these times.
module _ (starts : ℕ → ℕ) where
  abbrev pub started : ℕ → Option ℕ
  started revision = some (starts revision)

  -- A row carries the outcome of a validation that started at that time or after it.
  abbrev pub Carries : ℕ → Declaration → Type 0
  Carries time d =
      (revision : ℕ) × (d.last_discovered_revision ≡ some revision) × (time ≤ starts revision)

  -- What the given outcomes leave of a row.
  pub record Settles (Given : Findings) (d after : Declaration) : Type 0 where
    pub rising : (last : ℕ) → d.last_discovered_revision ≡ some last → Carries (starts last) after
    pub latest :
        (run : Recording) (outcome : DiscoveryStatus)
        → Given run outcome
        → Carries (starts run.revision) after
    pub source :
        (after ≡ d)
        ⊎ ((run : Recording) × (outcome : DiscoveryStatus) × Given run outcome
            × (after ≡ showing run outcome d))

  pub same-Settles :
      {Given : Findings} (d : Declaration)
      → ((run : Recording) (outcome : DiscoveryStatus)
          → Given run outcome
          → Carries (starts run.revision) d)
      → Settles Given d d
  same-Settles d held = record {
    rising = λ last e. (last, e, omega arith);
    latest = held;
    source = inl refl;
  }

  -- Some validation with an outcome wrote the row, or none did.
  abbrev pub Source : Findings → Declaration → Declaration → Type 0
  Source Given d after =
      (after ≡ d)
      ⊎ ((run : Recording) × (outcome : DiscoveryStatus) × Given run outcome
          × (after ≡ showing run outcome d))

  Source-trans :
      {First Then Both : Findings} (d e f : Declaration)
      → ((run : Recording) (outcome : DiscoveryStatus) → First run outcome → Both run outcome)
      → ((run : Recording) (outcome : DiscoveryStatus) → Then run outcome → Both run outcome)
      → Source First d e
      → Source Then e f
      → Source Both d f
  Source-trans d e f left right (inl p) (inl q) = inl (q ∙ p)
  Source-trans d e f left right (inr (run, outcome, h, p)) (inl q) =
      inr (run, outcome, left run outcome h, q ∙ p)
  Source-trans d e f left right (inl p) (inr (run, outcome, h, q)) =
      inr (run, outcome, right run outcome h, q ∙ ap (showing run outcome) p)
  Source-trans d e f left right (inr (_, _, _, p)) (inr (run, outcome, h, q)) =
      inr (run, outcome, right run outcome h, q ∙ ap (showing run outcome) p)

  pub Settles-trans :
      {First Then Both : Findings} (d e f : Declaration)
      → ((run : Recording) (outcome : DiscoveryStatus)
          → Both run outcome
          → First run outcome ⊎ Then run outcome)
      → ((run : Recording) (outcome : DiscoveryStatus) → First run outcome → Both run outcome)
      → ((run : Recording) (outcome : DiscoveryStatus) → Then run outcome → Both run outcome)
      → Settles First d e
      → Settles Then e f
      → Settles Both d f
  Settles-trans {First} {Then} {Both} d e f split left right s t = record {
    rising = λ last h. later (s.rising last h);
    latest = λ run outcome h.
        ⊎_elim (λ first. later (s.latest run outcome first)) (t.latest run outcome)
          (split run outcome h);
    source = Source-trans d e f left right s.source t.source;
  }
    where
      later : {time : ℕ} → Carries time e → Carries time f
      later {time} (middle, shown, after_it) =
          let (last, shows, after_middle) = t.rising middle shown in
          (last, shows, omega (arith, after_it, after_middle))

  -- One entry on a row.
  abbrev pub row_after : Recording → ScriptFile → Option DiscoveryStatus → Declaration → Declaration
  row_after run entry none d = d
  row_after run entry (some outcome) d =
      if is_named started run.revision entry d
      then with_result started run.revision outcome
          (message_for outcome entry.source_path run.failures run.judged.notes) d
      else d

  abbrev Entry_finds : Recording → ScriptFile → ℕ → Text → Findings
  Entry_finds run entry pk path other outcome =
      (other ≡ run)
      × (is_about pk path entry ≡ true)
      × (Dict.lookup path run.judged.outcomes ≡ some outcome)

  about-path :
      (pk : ℕ) (path : Text) (entry : ScriptFile)
      → is_about pk path entry ≡ true
      → path ≡ entry.source_path
  about-path pk path entry h =
      ==→≡ path entry.source_path ((&&-eq-true (pk == entry.pk) (path == entry.source_path) h).1)

  stale_le :
      (revision last : ℕ)
      → is_stale started revision (some last) ≡ true
      → starts last ≤ starts revision
  stale_le revision last h = ground arith

  -- A row that the update passes over carries an outcome that is at least as new.
  unstale-Carries :
      (revision : ℕ) (d : Declaration)
      → is_stale started revision d.last_discovered_revision ≡ false
      → Carries (starts revision) d
  unstale-Carries revision d h = elim (Option-cases d.last_discovered_revision) [
    | inl never ↦ absurd (ground (arith, never))
    | inr (last, e) ↦ (last, e, ground (arith, e))
  ]

  row_after-Settles :
      (run : Recording) (entry : ScriptFile) (found : Option DiscoveryStatus) (d : Declaration)
      → Dict.lookup entry.source_path run.judged.outcomes ≡ found
      → Settles (Entry_finds run entry d.pk d.source_path) d (row_after run entry found d)
  row_after-Settles run entry none d missing = same-Settles d λ other outcome h.
      let p = about-path d.pk d.source_path entry h.1 in absurd (cc (p, missing, h.2))
  row_after-Settles run entry (some outcome) d found =
      if-cases (Settles (Entry_finds run entry d.pk d.source_path) d)
        (is_named started run.revision entry d) _ d
        (λ named.
          let (stale, about) =
            &&-eq-true (is_stale started run.revision d.last_discovered_revision)
              (is_about d.pk d.source_path entry) named in
          let p = about-path d.pk d.source_path entry about in
          record {
            rising = λ last e. (
              run.revision,
              refl,
              stale_le run.revision last (sym (ap (is_stale started run.revision) e) ∙ stale),
            );
            latest = λ other o h. (run.revision, refl, rw h.0 (omega arith));
            source = inr (
              run,
              outcome,
              (refl, about, ap (λ (path : Text). Dict.lookup path run.judged.outcomes) p ∙ found),
              ap
                  (λ (path : Text).
                    with_result started run.revision outcome
                      (message_for outcome path run.failures run.judged.notes) d)
                  (sym p),
            );
          })
        (λ unnamed.
          same-Settles d
            λ other o h. rw h.0 (unstale-Carries run.revision d (ground (arith, unnamed, h.1))))

  pub Source-pk :
      {Given : Findings} (d after : Declaration) → Source Given d after → after.pk ≡ d.pk
  Source-pk d after (inl p) = ap (λ (row : Declaration). row.pk) p
  Source-pk d after (inr (_, _, _, p)) = ap (λ (row : Declaration). row.pk) p

  pub Source-path :
      {Given : Findings} (d after : Declaration)
      → Source Given d after
      → after.source_path ≡ d.source_path
  Source-path d after (inl p) = ap (λ (row : Declaration). row.source_path) p
  Source-path d after (inr (_, _, _, p)) = ap (λ (row : Declaration). row.source_path) p

  -- All entries of a validation on a row.
  abbrev pub row_after_all : Recording → List ScriptFile → Declaration → Declaration
  row_after_all run [] d = d
  row_after_all run (entry ∷ entries) d =
      row_after_all run entries
        (row_after run entry (Dict.lookup entry.source_path run.judged.outcomes) d)

  abbrev pub Entries_find : Recording → List ScriptFile → ℕ → Text → Findings
  Entries_find run entries pk path other outcome =
      (other ≡ run)
      × (any_of (is_about pk path) entries ≡ true)
      × (Dict.lookup path run.judged.outcomes ≡ some outcome)

  pub row_after_all-Settles :
      (run : Recording) (entries : List ScriptFile) (pk : ℕ) (path : Text) (d : Declaration)
      → d.pk ≡ pk
      → d.source_path ≡ path
      → Settles (Entries_find run entries pk path) d (row_after_all run entries d)
  row_after_all-Settles run [] pk path d at_pk at_path =
      same-Settles d λ other outcome h. absurd (cc (h.1))
  row_after_all-Settles run (entry ∷ entries) pk path d at_pk at_path =
      let found = Dict.lookup entry.source_path run.judged.outcomes in
      let next = row_after run entry found d in
      let here = row_after-Settles run entry found d refl in
      let first =
        subst (λ (q : Text). Settles (Entry_finds run entry pk q) d next) at_path
          (subst (λ (k : ℕ). Settles (Entry_finds run entry k d.source_path) d next) at_pk here) in
      let rest =
        row_after_all-Settles run entries pk path next (Source-pk d next first.source ∙ at_pk)
          (Source-path d next first.source ∙ at_path) in
      Settles-trans d next (row_after_all run entries next)
        (λ other outcome h. elim (Bool-cases (is_about pk path entry)) [
          | inl about ↦ inl (h.0, about, h.2)
          | inr apart ↦ inr (h.0, ground (arith, apart, h.1), h.2)
        ])
        (λ other outcome h. (h.0, ground (arith, h.1), h.2))
        (λ other outcome h. (h.0, ground (arith, h.1), h.2)) first rest
