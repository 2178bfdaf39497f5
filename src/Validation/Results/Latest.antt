-- ===== src/Validation/Results/Latest.antt =====
-- What several validations leave on the declared files when they record their results one after another,
-- in whatever order they end (_persist_script_file_results of netbox_scripts/validation.py).
use mathlib.Core.List.Memᴰ
use netbox_scripts.Base.{
  ℕ, ◌≡◌, refl, sym, ap, ◌∙◌, inl, inr, List, [], ◌∷◌, Option, none, some, subst, Memᴰ,
  Option-cases, text_eq,
}
use netbox_scripts.Base.Dict
use netbox_scripts.Text.{Text}
use netbox_scripts.ScriptFiles.{ScriptFile}
use netbox_scripts.Declarations.{Declaration, DiscoveryStatus}
use netbox_scripts.Validation.Results.{record_result, recorded, persist_results}
use netbox_scripts.Validation.Results.Settled.{
  Recording, Findings, Finds, started, Settles, Source-pk, Source-path, same-Settles, Settles-trans,
  row_after, row_after_all, row_after_all-Settles,
}

module _ (starts : ℕ → ℕ) where
  -- The validations record one after another.
  abbrev pub persist_each : List Recording → List Declaration → List Declaration
  persist_each [] rows = rows
  persist_each (run ∷ runs) rows =
      persist_each runs
        (persist_results (started starts) run.revision run.entries run.failures run.judged rows)

  abbrev row_after_runs : List Recording → Declaration → Declaration
  row_after_runs [] d = d
  row_after_runs (run ∷ runs) d = row_after_runs runs (row_after_all starts run run.entries d)

  -- One of the validations has that outcome.
  abbrev pub Found_by : List Recording → ℕ → Text → Findings
  Found_by runs pk path run outcome = Memᴰ run runs × Finds pk path run outcome

  row_after_runs-Settles :
      (runs : List Recording) (pk : ℕ) (path : Text) (d : Declaration)
      → d.pk ≡ pk
      → d.source_path ≡ path
      → Settles starts (Found_by runs pk path) d (row_after_runs runs d)
  row_after_runs-Settles [] pk path d at_pk at_path =
      same-Settles starts d λ run outcome h. absurd (Memᴰ.not-nil h.0)
  row_after_runs-Settles (run ∷ runs) pk path d at_pk at_path =
      let next = row_after_all starts run run.entries d in
      let first = row_after_all-Settles starts run run.entries pk path d at_pk at_path in
      let rest =
        row_after_runs-Settles runs pk path next (Source-pk starts d next first.source ∙ at_pk)
          (Source-path starts d next first.source ∙ at_path) in
      Settles-trans starts d next (row_after_runs runs next)
        (λ other outcome h. elim (Memᴰ.cases_cons h.0) [
          | inl e ↦
              let (about, found) = subst (λ (r : Recording). Finds pk path r outcome) e h.1 in
              inl (e, about, found)
          | inr later ↦ inr (later, h.1)
        ])
        (λ other outcome h.
          (Memᴰ.head h.0, subst (λ (r : Recording). Finds pk path r outcome) (sym h.0) (h.1, h.2)))
        (λ other outcome h. (Memᴰ.tail h.0, h.1)) first rest

  recorded-cons :
      (run : Recording) (entry : ScriptFile) (found : Option DiscoveryStatus) (d : Declaration)
      (rows : List Declaration)
      → recorded (started starts) run.revision entry found run.failures run.judged.notes (d ∷ rows)
        ≡ row_after starts run entry found d
          ∷ recorded (started starts) run.revision entry found run.failures run.judged.notes rows
  unfolding record_result
  recorded-cons run entry none d rows = refl
  recorded-cons run entry (some outcome) d rows = refl

  persist_results-cons :
      (run : Recording) (entries : List ScriptFile) (d : Declaration) (rows : List Declaration)
      → persist_results (started starts) run.revision entries run.failures run.judged (d ∷ rows)
        ≡ row_after_all starts run entries d
          ∷ persist_results (started starts) run.revision entries run.failures run.judged rows
  unfolding persist_results
  persist_results-cons run [] d rows = refl
  persist_results-cons run (entry ∷ entries) d rows =
      let found = Dict.lookup entry.source_path run.judged.outcomes in
      ap (persist_results (started starts) run.revision entries run.failures run.judged)
        (recorded-cons run entry found d rows)
      ∙ persist_results-cons run entries (row_after starts run entry found d)
          (recorded (started starts) run.revision entry found run.failures run.judged.notes rows)

  persist_results-nil :
      (run : Recording) (entries : List ScriptFile)
      → persist_results (started starts) run.revision entries run.failures run.judged [] ≡ []
  unfolding persist_results record_result
  persist_results-nil run [] = refl
  persist_results-nil run (entry ∷ entries) =
      elim (Option-cases (Dict.lookup entry.source_path run.judged.outcomes)) [
        | inl missing ↦ rw missing (persist_results-nil run entries)
        | inr (outcome, found) ↦ rw found (persist_results-nil run entries)
      ]

  persist_each-cons :
      (runs : List Recording) (d : Declaration) (rows : List Declaration)
      → persist_each runs (d ∷ rows) ≡ row_after_runs runs d ∷ persist_each runs rows
  persist_each-cons [] d rows = refl
  persist_each-cons (run ∷ runs) d rows =
      ap (persist_each runs) (persist_results-cons run run.entries d rows)
      ∙ persist_each-cons runs (row_after_all starts run run.entries d)
          (persist_results (started starts) run.revision run.entries run.failures run.judged rows)

  persist_each-nil : (runs : List Recording) → persist_each runs [] ≡ []
  persist_each-nil [] = refl
  persist_each-nil (run ∷ runs) =
      ap (persist_each runs) (persist_results-nil run run.entries) ∙ persist_each-nil runs

  -- The same rows in the same order, each as the validations leave it.
  abbrev pub SettlesAll : List Recording → List Declaration → List Declaration → Type 0
  SettlesAll runs [] [] = Unit
  SettlesAll runs (d ∷ rows) (after ∷ later) =
      Settles starts (Found_by runs d.pk d.source_path) d after × SettlesAll runs rows later
  SettlesAll runs _ _ = ⊥

  -- Whatever validations record their results, in whatever order, provided that each revision has the
  -- start that is given for it and keeps it meanwhile, every row keeps its place and ends in one of two ways: as it was, or
  -- with its status, its message and its revision from a validation that has an outcome for its key and
  -- path, and with nothing else changed. Either way it carries an outcome that started no earlier than
  -- that of each validation that has an outcome for it, and no earlier than the outcome that it had.
  pub persist_each-SettlesAll :
      (runs : List Recording) (rows : List Declaration)
      → SettlesAll runs rows (persist_each runs rows)
  persist_each-SettlesAll runs [] = rw (persist_each-nil runs) tt
  persist_each-SettlesAll runs (d ∷ rows) = rw (persist_each-cons runs d rows) (
    row_after_runs-Settles runs d.pk d.source_path d refl refl,
    persist_each-SettlesAll runs rows,
  )
