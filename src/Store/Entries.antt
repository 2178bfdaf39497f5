-- ===== src/Store/Entries.antt =====
-- The files of a stored tree (netbox_scripts/storage/store.py): the bounded read, the verification
-- and the write of one entry.
use netbox_scripts.Base.{
  ℕ, zero, suc, ◌+◌, ◌-◌, Bool, true, false, not, ◌||◌, List, [], ◌∷◌, ◌++◌, Option, none, some,
  map, ltb, if◌then◌else◌, ◌==◌, nat_eq, text_eq, take, drop, length, is_empty, Result, ok, err,
  ◌*◌,
}
use Prim.Native.Nat.{min}
use netbox_scripts.Base.Dict
use netbox_scripts.Base.Dict.{Dict}
use netbox_scripts.Text.{Text, codes}
use netbox_scripts.Unicode.{Unicode}
use netbox_scripts.Paths.{UnsafePath, unsafe, normalize_source_path}
use netbox_scripts.Paths.{PathCode}
use netbox_scripts.Base.Int.{pos}
use netbox_scripts.Json.{Value, int, obj, arr, get, listed}
use netbox_scripts.Corrupt.{Reason, missing, size_mismatch, checksum_mismatch}
use netbox_scripts.Manifest.{Bytes, Entry, Files, text_at}
use netbox_scripts.Backend.{Backend, Failure, file_not_found, not_implemented, other_failure}

-- The exceptions that the module raises, less their messages.
pub data StoreError : Type 0 where
  corrupt : List Reason → StoreError
  unsafe_path : UnsafePath → StoreError
  storage_error : StoreError

abbrev pub lift_corrupt {ℓ} : {A : Type ℓ} → Result (List Reason) A → Result StoreError A
lift_corrupt (ok a) = ok a
lift_corrupt (err reasons) = err (corrupt reasons)

abbrev pub lift_unsafe {ℓ} : {A : Type ℓ} → Result UnsafePath A → Result StoreError A
lift_unsafe (ok a) = ok a
lift_unsafe (err e) = err (unsafe_path e)

abbrev pub hash_chunk : ℕ
hash_chunk = 1024 * 1024

-- The loop of `_measure`: the content left in the file, the bytes still to read, and the size and
-- the bytes hashed so far. The fuel is the number of bytes to read: each round reads one at least.
unfoldable pub measure_loop : ℕ → ℕ → Bytes → ℕ → ℕ → Bytes → ℕ × Bytes
measure_loop zero chunk content remaining size hashed = (size, hashed)
measure_loop (suc fuel) chunk content remaining size hashed =
    let n = min chunk remaining in
    let block = take n content in
    let rest =
      measure_loop fuel chunk (drop n content) (remaining - length block) (size + length block)
        (hashed ++ block) in
    if not (ltb 0 remaining) || is_empty block then (size, hashed) else rest

-- `_measure`, with the bytes that the sink has been given in place of the checksum.
unfoldable pub measure : Bytes → ℕ → ℕ × Bytes
unfolding measure_loop
measure content expected_size =
    measure_loop (expected_size + 1) hash_chunk content (expected_size + 1) 0 []

-- The source by canonical path, and the refusal of two keys with one canonical path.
unfoldable pub canonical_source :
    Unicode → Files → Dict Text Bytes → Result UnsafePath (Dict Text Bytes)
canonical_source u [] source = ok source
canonical_source u ((path, content) ∷ files) source = elim (normalize_source_path u path) [
  | err e ↦ err e
  | ok canonical ↦ elim (Dict.lookup canonical source) [
    | some old ↦ err (unsafe path PathCode.duplicate_path)
    | none ↦ canonical_source u files (Dict.insert canonical content source)
  ]
]

-- `_exists`
abbrev pub probe : Result Failure Bool → Result StoreError Bool
probe (ok b) = ok b
probe (err e) = err storage_error

-- A corrupt file gives its reasons, any other failure is raised.
abbrev pub mismatches : Result StoreError Bytes → Result StoreError (List Reason)
mismatches (ok bytes) = ok []
mismatches (err (corrupt reasons)) = ok reasons
mismatches (err e) = err e

abbrev pub size_at : Option Value → ℕ
size_at (some (int (pos n))) = n
size_at _ = 0

-- One entry of a manifest that has been validated.
abbrev pub decode_entry : Value → Entry
decode_entry (obj fs) = record {
  path = text_at (get (codes "path") fs);
  size = size_at (get (codes "size") fs);
  sha256 = text_at (get (codes "sha256") fs);
}
decode_entry _ = record { path = []; size = 0; sha256 = [] }

abbrev pub decode_manifest : Value → List Entry
decode_manifest (arr xs) = map decode_entry (listed xs)
decode_manifest _ = []

abbrev pub is_missing : Reason → Bool
is_missing (missing path) = true
is_missing _ = false

module _ (B : Backend) (sha256 : Bytes → Text) where
  -- `_size`: a backend that cannot say gives `none`.
  unfoldable pub reported_size : B.State → Text → Result Failure (Option ℕ)
  reported_size s key = elim (B.size s key) [
    | ok n ↦ ok (some n)
    | err not_implemented ↦ ok none
    | err file_not_found ↦ err file_not_found
    | err other_failure ↦ err other_failure
  ]

  -- How a failure inside the `try` of `_stream_verified` is reported.
  abbrev pub read_failure : Text → Failure → StoreError
  read_failure path file_not_found = corrupt (missing path ∷ [])
  read_failure path _ = storage_error

  abbrev pub size_differs : Option ℕ → ℕ → Bool
  size_differs none expected = false
  size_differs (some n) expected = not (n == expected)

  abbrev pub judge : Entry → ℕ × Bytes → Result StoreError Bytes
  judge entry (size, bytes) =
      if not (size == entry.size)
      then err (corrupt (size_mismatch entry.path ∷ []))
      else if not (sha256 bytes == entry.sha256)
      then err (corrupt (checksum_mismatch entry.path ∷ []))
      else ok bytes

  -- `_stream_verified`: the bytes that the sink holds when it succeeds.
  unfoldable pub stream_verified : B.State → Text → Entry → Result StoreError Bytes
  unfolding reported_size measure
  stream_verified s key entry = elim (reported_size s key) [
    | err e ↦ err (read_failure entry.path e)
    | ok reported ↦
        if size_differs reported entry.size
        then err (corrupt (size_mismatch entry.path ∷ []))
        else elim (B.open_file s key) [
          | err e ↦ err (read_failure entry.path e)
          | ok content ↦ judge entry (measure content entry.size)
        ]
  ]

  -- `_verify_entry`
  unfoldable pub verify_entry : B.State → Text → Entry → Result StoreError (List Reason)
  verify_entry s key entry = mismatches (stream_verified s key entry)

  -- What an operation returns or raises, and the backend as it leaves it.
  abbrev pub Effect : Type 0 → Type 0
  Effect A = Result StoreError A × B.State

  abbrev pub storing :
      Result Failure (Text × B.State)
      → B.State
      → (Text → B.State → Effect (Unit {0}))
      → Effect (Unit {0})
  storing (ok (stored, s')) s k = k stored s'
  storing (err e) s k = (err storage_error, s)

  -- A failed deletion of the stray object is only logged.
  abbrev pub without_stray : B.State → Text → B.State
  without_stray s stored = elim (B.delete s stored) [ ok s' ↦ s' | err e ↦ s ]

  abbrev pub settle : Result StoreError (List Reason) → B.State → Effect (Unit {0})
  settle (ok []) s = (ok tt, s)
  settle (ok (r ∷ rs)) s = (err storage_error, s)
  settle (err e) s = (err e, s)

  -- The save, and the look at what occupies the key if the backend chose another name.
  unfoldable pub save_one : B.State → Text → Bytes → Entry → Effect (Unit {0})
  save_one s key content entry = storing (B.save s key content) s (λ stored s'.
      if stored == key
      then (ok tt, s')
      else (let cleared = without_stray s' stored in
          settle (verify_entry cleared key entry) cleared))

  abbrev pub replace :
      Result StoreError (List Reason) → B.State → Text → Bytes → Entry → Effect (Unit {0})
  replace (ok []) s key content entry = (ok tt, s)
  replace (ok (r ∷ rs)) s key content entry = elim (B.delete s key) [
    | ok s' ↦ save_one s' key content entry
    | err e ↦ (err storage_error, s)
  ]
  replace (err e) s key content entry = (err e, s)

  unfoldable pub write_one : B.State → Text → Bytes → Entry → Effect (Unit {0})
  unfolding save_one verify_entry
  write_one s key content entry = elim (B.exists s key) [
    | err e ↦ (err storage_error, s)
    | ok false ↦ save_one s key content entry
    | ok true ↦ replace (verify_entry s key entry) s key content entry
  ]
