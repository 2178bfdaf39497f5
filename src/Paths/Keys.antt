-- ===== src/Paths/Keys.antt =====
-- The storage keys of netbox_scripts/storage/paths.py: prefixes of projects and revisions.
use netbox_scripts.Base.{
  ℕ, ◌≡◌, ◌≤◌, ◌+◌, refl, Bool, true, not, ◌&&◌, ◌||◌, [], ◌∷◌, ◌++◌, Option, none, some, arith,
  leb, ◌==◌, nat_eq, all_of, length, Result, ok, err, ◌>>=◌, ◌>>◌, refuse, >>=-eq-ok, Option-cases,
  Bool-cases, inl, inr,
}
use netbox_scripts.Text.{Text, codes, slash, utf8_length}
use netbox_scripts.Unicode.{Unicode}
use netbox_scripts.Paths.{
  UnsafePath, unsafe, escapes_root, normalize_source_path, check_segments, max_path_bytes,
}
use netbox_scripts.Paths.Recheck.{normalize_parts}

abbrev pub storage_prefix : Text
storage_prefix = codes "netbox-scripts"

abbrev pub is_hex : ℕ → Bool
is_hex c = (leb 48 c && leb c 57) || (leb 97 c && leb c 102)

-- `[0-9a-f]{64}`, matched against the whole text.
unfoldable pub is_sha256 : Text → Bool
is_sha256 s = length s == 64 && all_of is_hex s

utf8_length-append : (s t : Text) → utf8_length (s ++ t) ≡ utf8_length s + utf8_length t
unfolding utf8_length
utf8_length-append [] t = omega arith
utf8_length-append (c ∷ s) t = omega (arith, utf8_length-append s t)

utf8_length-hex : (s : Text) → all_of is_hex s ≡ true → utf8_length s ≡ length s
unfolding utf8_length
utf8_length-hex [] h = refl
utf8_length-hex (c ∷ s) h = ground (arith, utf8_length-hex s)

normalize_bytes :
    (u : Unicode) (path c : Text)
    → normalize_source_path u path ≡ ok c
    → utf8_length c ≤ max_path_bytes
unfolding check_segments
normalize_bytes u path c h = ground (arith, normalize_parts u path c h)

sha256_bytes : (digest : Text) → is_sha256 digest ≡ true → utf8_length digest ≡ 64
unfolding is_sha256
sha256_bytes digest h = ground (arith, utf8_length-hex digest)

prefix_width :
    (t : Text)
    → utf8_length t ≡ 36
    → (digest : Text) → is_sha256 digest ≡ true
    → (prefix : Text)
    → prefix
      ≡ (storage_prefix ++ (slash ∷ (t ++ (slash ∷ []))))
        ++ (codes "revisions/" ++ (digest ++ (slash ∷ [])))
    → utf8_length prefix ≡ 127
unfolding utf8_length
prefix_width t w digest hex prefix e =
    let head : Text = t ++ (slash ∷ []) in
    let tail : Text = digest ++ (slash ∷ []) in
    rw e (
      omega (
        arith,
        w,
        utf8_length-append head (codes "revisions/" ++ tail),
        utf8_length-append t (slash ∷ []),
        utf8_length-append digest (slash ∷ []),
        sha256_bytes digest hex,
      ))

-- `str(uuid.UUID(text))`, or `none` where the constructor raises.
module _ (parse_uuid : Text → Option Text) where
  unfoldable pub storage_key_component : Text → Result UnsafePath Text
  storage_key_component key = elim (parse_uuid key) [
    | none ↦ err (unsafe key escapes_root)
    | some canonical ↦ ok canonical
  ]

  unfoldable pub digest_component : Text → Result UnsafePath Text
  digest_component digest = do
    refuse (not (is_sha256 digest)) (unsafe digest escapes_root)
    ok digest

  unfoldable pub project_prefix : Text → Result UnsafePath Text
  unfolding storage_key_component
  project_prefix key = do
    canonical ← storage_key_component key
    ok (storage_prefix ++ (slash ∷ (canonical ++ (slash ∷ []))))

  unfoldable pub revision_prefix : Text → Text → Result UnsafePath Text
  unfolding project_prefix digest_component
  revision_prefix key digest = do
    project ← project_prefix key
    hash ← digest_component digest
    ok (project ++ (codes "revisions/" ++ (hash ++ (slash ∷ []))))

  unfoldable pub revision_key : Unicode → Text → Text → Text → Result UnsafePath Text
  unfolding revision_prefix
  revision_key u key digest path = do
    prefix ← revision_prefix key digest
    canonical ← normalize_source_path u path
    ok (prefix ++ canonical)

  prefix_bytes :
      ((k t : Text) → parse_uuid k ≡ some t → utf8_length t ≡ 36)
      → (key digest prefix : Text) → revision_prefix key digest ≡ ok prefix
      → utf8_length prefix ≡ 127
  unfolding revision_prefix
  prefix_bytes width key digest prefix h = elim (Option-cases (parse_uuid key)) [
    | inl gone ↦ ground (arith, gone)
    | inr (t, found) ↦ elim (Bool-cases (is_sha256 digest)) [
      | inl hex ↦ prefix_width t (width key t found) digest hex prefix (ground (arith, found, hex))
      | inr bad ↦ ground (arith, found, bad)
    ]
  ]

  -- If a parsed UUID is written in 36 bytes, a storage key that revision_key returns has at most 127
  -- bytes more than the longest path.
  pub revision_key_bytes :
      ((k t : Text) → parse_uuid k ≡ some t → utf8_length t ≡ 36)
      → (u : Unicode) (key digest path full : Text) → revision_key u key digest path ≡ ok full
      → utf8_length full ≤ 127 + max_path_bytes
  unfolding revision_key
  revision_key_bytes width u key digest path full h =
      let (prefix, at_prefix, rest) = >>=-eq-ok (revision_prefix key digest) _ h in
      let (c, at_path, joined) = >>=-eq-ok (normalize_source_path u path) _ rest in
      ground (
        arith,
        prefix_bytes width key digest prefix at_prefix,
        normalize_bytes u path c at_path,
        utf8_length-append prefix c,
      )
