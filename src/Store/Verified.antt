-- ===== src/Store/Verified.antt =====
-- What a successful verification of netbox_scripts/storage/store.py says of the stored bytes.
use netbox_scripts.Base.{
  ℕ, suc, zero, ◌+◌, ◌≤◌, ◌⊎◌, ◌↔◌, ==-refl, false, some, ◌≡◌, refl, sym, ap, ◌∙◌, List, [], ◌∷◌,
  ◌++◌, arith, nat_eq, text_eq, length, take, All, Bool-cases, Result-cases, ◌≢◌, inl, inr, Result,
  ok, err, >>=-eq-ok,
}
use netbox_scripts.Paths.{UnsafePath}
use netbox_scripts.Text.{Text}
use netbox_scripts.Manifest.{Bytes, Entry}
use netbox_scripts.Backend.{Backend, not_implemented, file_not_found, other_failure}
use netbox_scripts.Corrupt.{Reason}
use netbox_scripts.Store.{
  StoreError, corrupt, measure, judge, stream_verified, reported_size, size_differs, verify_entry,
  verify_entries, mismatches, lift_unsafe,
}
use netbox_scripts.Store.Measure.{measure_lem}

take_short : (n : ℕ) (b : Bytes) → length (take (suc n) b) ≡ n → take (suc n) b ≡ b
take_short n [] h = refl
take_short zero (x ∷ b) h = absurd (ground arith)
take_short (suc n) (x ∷ b) h = ap (λ r. x ∷ r) (take_short n b (ground arith))

take_all : (n : ℕ) (b : Bytes) → length b ≤ n → take n b ≡ b
take_all zero [] h = refl
take_all (suc n) [] h = refl
take_all zero (x ∷ b) h = absurd (omega arith)
take_all (suc n) (x ∷ b) h = ap (λ r. x ∷ r) (take_all n b (omega arith))

pub lift_unsafe-ok : (r : Result UnsafePath Text) (a : Text) → lift_unsafe r ≡ ok a → r ≡ ok a
lift_unsafe-ok (ok b) a h = ground arith
lift_unsafe-ok (err e) a h = cc

module _ (B : Backend) (sha256 : Bytes → Text) where
  -- The bytes that an entry promises.
  abbrev pub IsIntact : Entry → Bytes → Type 0
  IsIntact entry b = (length b ≡ entry.size) × (sha256 b ≡ entry.sha256)

  judge-ok :
      (entry : Entry) (m : ℕ × Bytes) (b : Bytes)
      → judge B sha256 entry m ≡ ok b
      → (m.0 ≡ entry.size) × (m.1 ≡ b) × (sha256 b ≡ entry.sha256)
  judge-ok entry (size, bytes) b h = ground arith

  measured :
      (content : Bytes) (n : ℕ)
      → measure content n ≡ (length (take (suc n) content), take (suc n) content)
  measured content n =
      let e : n + 1 ≡ suc n = omega arith in
      measure_lem content n ∙ ap (λ k. (length (take k content), take k content)) e

  judge-measured :
      (entry : Entry) (content b : Bytes)
      → judge B sha256 entry (measure content entry.size) ≡ ok b
      → (content ≡ b) × IsIntact entry b
  judge-measured entry content b h =
      let (size, same, hashed) =
        judge-ok entry (length (take (suc entry.size) content), take (suc entry.size) content) b
          (ap (judge B sha256 entry) (sym (measured content entry.size)) ∙ h) in
      let whole = take_short entry.size content size in
      (sym whole ∙ same, (ap length (sym same) ∙ size, hashed))

  -- Bytes that `_stream_verified` hands over are the whole stored file, with the size and the
  -- checksum of the entry.
  pub stream_verified-ok :
      (s : B.State) (key : Text) (entry : Entry) (b : Bytes)
      → stream_verified B sha256 s key entry ≡ ok b
      → (B.open_file s key ≡ ok b) × IsIntact entry b
  unfolding stream_verified
  stream_verified-ok s key entry b h = elim (Result-cases (reported_size B sha256 s key)) [
    | inr (e, failed) ↦ absurd (ground (arith, failed))
    | inl (reported, told) ↦ elim (Bool-cases (size_differs B sha256 reported entry.size)) [
      | inl differs ↦ absurd (ground (arith, told, differs))
      | inr fits ↦ elim (Result-cases (B.open_file s key)) [
        | inr (e, failed) ↦ absurd (ground (arith, told, fits, failed))
        | inl (content, opened) ↦
            let (whole, intact) =
              judge-measured entry content b (rw (told, fits, opened, stream_verified) at h) in
            (opened ∙ ap ok whole, intact)
      ]
    ]
  ]

  judge-intact :
      (entry : Entry) (b : Bytes)
      → IsIntact entry b
      → judge B sha256 entry (measure b entry.size) ≡ ok b
  judge-intact entry b (size, hashed) =
      let whole : take (suc entry.size) b ≡ b = take_all (suc entry.size) b (omega (arith, size)) in
      ap (judge B sha256 entry) (measured b entry.size)
      ∙ ground (
        arith,
        whole,
        size,
        hashed,
        ap length whole,
        ap sha256 whole,
        ==-refl entry.size,
        ==-refl entry.sha256,
      )

  -- Where the backend reports no size, or the size of the stored file, `_stream_verified` hands over
  -- some bytes exactly if they are the whole stored file, with the size and the checksum of the entry.
  pub stream_verified_iff :
      (s : B.State) (key : Text) (entry : Entry) (b : Bytes)
      → (B.size s key ≡ ok (length b)) ⊎ (B.size s key ≡ err not_implemented)
      → (stream_verified B sha256 s key entry ≡ ok b)
        ↔ ((B.open_file s key ≡ ok b) × IsIntact entry b)
  unfolding stream_verified reported_size
  stream_verified_iff s key entry b honest = (
    stream_verified-ok s key entry b,
    λ (opened, intact). elim honest [
      | inl told ↦
          let fits : size_differs B sha256 (some (length b)) entry.size ≡ false =
            ground (arith, intact.0, ==-refl entry.size) in
          rw (told, fits, opened, stream_verified, reported_size) (judge-intact entry b intact)
      | inr silent ↦
          rw (silent, opened, stream_verified, reported_size) (judge-intact entry b intact)
    ],
  )

  -- The file of an entry below a prefix is there, with the entry's size and checksum.
  abbrev pub IsStored : B.State → Text → Entry → Type 0
  IsStored s prefix entry =
      (b : Bytes) × (B.open_file s (prefix ++ entry.path) ≡ ok b) × IsIntact entry b

  judge-reasons : (entry : Entry) (m : ℕ × Bytes) → judge B sha256 entry m ≢ err (corrupt [])
  judge-reasons entry (size, bytes) h = ground arith

  -- A refusal names a reason.
  stream_verified-reasons :
      (s : B.State) (key : Text) (entry : Entry)
      → stream_verified B sha256 s key entry ≢ err (corrupt [])
  unfolding stream_verified
  stream_verified-reasons s key entry h = elim (Result-cases (reported_size B sha256 s key)) [
    | inr (file_not_found, failed) ↦ ground (arith, failed)
    | inr (not_implemented, failed) ↦ ground (arith, failed)
    | inr (other_failure, failed) ↦ ground (arith, failed)
    | inl (reported, told) ↦ elim (Bool-cases (size_differs B sha256 reported entry.size)) [
      | inl differs ↦ ground (arith, told, differs)
      | inr fits ↦ elim (Result-cases (B.open_file s key)) [
        | inr (file_not_found, failed) ↦ ground (arith, told, fits, failed)
        | inr (not_implemented, failed) ↦ ground (arith, told, fits, failed)
        | inr (other_failure, failed) ↦ ground (arith, told, fits, failed)
        | inl (content, opened) ↦
            judge-reasons entry (measure content entry.size)
              (rw (told, fits, opened, stream_verified) at h)
      ]
    ]
  ]

  mismatches-none :
      (r : Result StoreError Bytes)
      → r ≢ err (corrupt [])
      → mismatches r ≡ ok []
      → (b : Bytes) × (r ≡ ok b)
  mismatches-none (ok b) n h = (b, refl)
  mismatches-none (err (corrupt [])) n h = absurd (n refl)
  mismatches-none (err (corrupt (r ∷ rs))) n h = cc
  mismatches-none (err e) n h = ground arith

  verify_entry-ok :
      (s : B.State) (prefix : Text) (entry : Entry)
      → verify_entry B sha256 s (prefix ++ entry.path) entry ≡ ok []
      → IsStored s prefix entry
  unfolding verify_entry
  verify_entry-ok s prefix entry h =
      let (b, read) =
        mismatches-none (stream_verified B sha256 s (prefix ++ entry.path) entry)
          (stream_verified-reasons s (prefix ++ entry.path) entry) h in
      let (opened, intact) = stream_verified-ok s (prefix ++ entry.path) entry b read in
      (b, opened, intact)

  append-nil : (xs ys : List Reason) → xs ++ ys ≡ [] → (xs ≡ []) × (ys ≡ [])
  append-nil [] ys h = (refl, h)
  append-nil (x ∷ xs) ys h = cc

  pub verify_entries-ok :
      (s : B.State) (prefix : Text) (entries : List Entry)
      → verify_entries B sha256 s prefix entries ≡ ok []
      → All (IsStored s prefix) entries
  unfolding verify_entries
  verify_entries-ok s prefix [] h = tt
  verify_entries-ok s prefix (entry ∷ entries) h =
      let (reasons, first, later) =
        >>=-eq-ok (verify_entry B sha256 s (prefix ++ entry.path) entry) _ h in
      let (more, rest, joined) = >>=-eq-ok (verify_entries B sha256 s prefix entries) _ later in
      let (a, b) = append-nil reasons more (ground (arith, joined)) in
      (
        verify_entry-ok s prefix entry (first ∙ ap ok a),
        verify_entries-ok s prefix entries (rest ∙ ap ok b),
      )
