-- ===== src/Repository/AssetKey/Laws.antt =====
-- asset_key.go: what the checks accept, and that keys do not collide.
use personal_context.Base.{
  ◌≡◌, ◌≢◌, ◌↔◌, ◌⊎◌, inl, inr, sym, ap, ◌∙◌, false, [], ◌∷◌, ◌++◌, arith, ◌==◌, nat_eq, list_eq,
  ==→≡, ≢→==, ==-refl, not, ◌&&◌, Bool-cases, ok, passed, >>=-eq-ok,
}
use personal_context.Text.{
  Text, codes, is_space, trim_left, trim_right, trim_space, contains, has_first, split,
}
use personal_context.Text.Trim.{trim_right-append_kept}
use personal_context.Text.Split.{contains-append, split_single, split-append}
use personal_context.Repository.AssetKey.{
  slash, backslash, record_id, filename, canonical_record_asset_key, check_asset_key,
  validate_record_asset_key,
}
use personal_context.Repository.AssetKey.Segment.{
  IsSegment, validate_asset_path_segment-IsSegment, segment_end,
}

-- The keys that the code puts together.
abbrev pub key_of : Text → Text → Text → Text
key_of kind id name = kind ++ slash ∷ (id ++ slash ∷ name)

abbrev pub IsKind : Text → Type 0
IsKind kind = (kind ≡ codes "figures") ⊎ (kind ≡ codes "data")

trim_right-key_of :
    (kind id name : Text)
    → IsSegment name
    → trim_right is_space (key_of kind id name) ≡ key_of kind id name
trim_right-key_of kind id name s =
    let e : trim_right is_space name ≡ name = segment_end name s.trimmed in
    let ends : Text = slash ∷ name in
    let u : trim_right is_space ends ≡ ends =
      trim_right-append_kept is_space (slash ∷ []) name e s.ne_nil in
    let v : trim_right is_space (slash ∷ (id ++ ends)) ≡ slash ∷ (id ++ ends) =
      trim_right-append_kept is_space (slash ∷ id) ends u (λ q. cc) in
    trim_right-append_kept is_space kind (slash ∷ (id ++ ends)) v (λ q. cc)

-- No kind begins with whitespace or holds a slash or a backslash.
trim_left-key_of :
    (kind id name : Text)
    → IsKind kind
    → trim_left is_space (key_of kind id name) ≡ key_of kind id name
unfolding trim_left is_space nat_eq
trim_left-key_of kind id name (inl e) = rw e
trim_left-key_of kind id name (inr e) = rw e

trim_space-key_of :
    (kind id name : Text)
    → IsKind kind
    → IsSegment name
    → trim_space (key_of kind id name) ≡ key_of kind id name
unfolding trim_space
trim_space-key_of kind id name k s =
    rw (trim_left-key_of kind id name k) (trim_right-key_of kind id name s)

kind_has_no :
    (kind : Text) → IsKind kind → (contains slash kind ≡ false) × (contains backslash kind ≡ false)
unfolding contains nat_eq
kind_has_no kind (inl e) = (rw e, rw e)
kind_has_no kind (inr e) = (rw e, rw e)

has_first-key_of :
    (kind id name : Text) → IsKind kind → has_first slash (key_of kind id name) ≡ false
unfolding has_first nat_eq
has_first-key_of kind id name (inl e) = rw e
has_first-key_of kind id name (inr e) = rw e

split-key_of :
    (kind id name : Text)
    → contains slash kind ≡ false
    → contains slash id ≡ false
    → contains slash name ≡ false
    → split slash (key_of kind id name) ≡ kind ∷ id ∷ name ∷ []
split-key_of kind id name a b c =
    rw (split-append slash kind _ a, split-append slash id _ b, split_single slash name c)

contains-key_of :
    (kind id name : Text)
    → contains backslash kind ≡ false
    → contains backslash id ≡ false
    → contains backslash name ≡ false
    → contains backslash (key_of kind id name) ≡ false
unfolding contains nat_eq
contains-key_of kind id name a b c = simp (contains-append, a, b, c)

-- What `canonical_record_asset_key` has checked when it returns a key.
pub record IsCanonical (kind id name key : Text) : Type 0 where
  pub kind_known : IsKind kind
  pub id_segment : IsSegment id
  pub name_segment : IsSegment name
  pub key_made : key ≡ key_of kind id name

IsKind-tests :
    (kind : Text)
    → (not (kind == codes "figures") && not (kind == codes "data")) ≡ false
    → IsKind kind
IsKind-tests kind h = elim (Bool-cases (kind == codes "figures")) [
  | inl e ↦ inl (==→≡ kind (codes "figures") e)
  | inr e ↦ inr (==→≡ kind (codes "data") (ground arith))
]

canonical_record_asset_key-IsCanonical :
    (kind id name : Text) {key : Text}
    → canonical_record_asset_key kind id name ≡ ok key
    → IsCanonical kind id name key
unfolding canonical_record_asset_key
canonical_record_asset_key-IsCanonical kind id name h = record {
  kind_known = IsKind-tests kind (ground arith);
  id_segment = validate_asset_path_segment-IsSegment record_id id (ground arith);
  name_segment = validate_asset_path_segment-IsSegment filename name (ground arith);
  key_made = ground arith;
}

-- A canonical key splits into the three parts that it was made of.
IsCanonical-split :
    (kind id name : Text) {key : Text}
    → IsCanonical kind id name key
    → split slash key ≡ kind ∷ id ∷ name ∷ []
IsCanonical-split kind id name c = rw c.key_made (
    split-key_of kind id name (kind_has_no kind c.kind_known).0 c.id_segment.no_slash
      c.name_segment.no_slash)

key_of-ne-nil : (kind id name : Text) → key_of kind id name ≢ []
key_of-ne-nil [] id name h = cc
key_of-ne-nil (c ∷ kind) id name h = cc

check_asset_key-key_of :
    (kind id name : Text)
    → IsKind kind
    → IsSegment id
    → IsSegment name
    → check_asset_key kind (key_of kind id name) (key_of kind id name) ≡ passed
unfolding check_asset_key nat_eq
check_asset_key-key_of kind id name k s t =
    let key : Text = key_of kind id name in
    let (no_slash, no_backslash) = kind_has_no kind k in
    rw (
      trim_space-key_of kind id name k t,
      ≢→== key [] (key_of-ne-nil kind id name),
      ==-refl key,
      has_first-key_of kind id name k,
      contains-key_of kind id name no_backslash s.no_backslash t.no_backslash,
      split-key_of kind id name no_slash s.no_slash t.no_slash,
    )

check_asset_key-eq :
    (kind key expected : Text) → check_asset_key kind key expected ≡ passed → expected ≡ key
unfolding check_asset_key
check_asset_key-eq kind key expected h = sym (==→≡ key expected (ground arith))

-- The checks of a stored key accept the canonical key of its owner and filename, and no other.
pub validate_record_asset_key_iff :
    (kind id name key : Text)
    → (validate_record_asset_key kind id name key ≡ passed)
      ↔ (canonical_record_asset_key kind id name ≡ ok key)
unfolding validate_record_asset_key
validate_record_asset_key_iff kind id name key = (
  λ h.
      let (expected, made, checked) =
        >>=-eq-ok (canonical_record_asset_key kind id name) (check_asset_key kind key) h in
      made ∙ ap ok (check_asset_key-eq kind key expected checked),
  λ h.
      let c = canonical_record_asset_key-IsCanonical kind id name h in
      rw h (
        rw c.key_made
          (check_asset_key-key_of kind id name c.kind_known c.id_segment c.name_segment)),
)

-- Two assets with one key are of one kind, of one record, and have one filename.
pub canonical_record_asset_key-injective :
    (kind id name kind' id' name' key : Text)
    → canonical_record_asset_key kind id name ≡ ok key
    → canonical_record_asset_key kind' id' name' ≡ ok key
    → (kind ≡ kind') × (id ≡ id') × (name ≡ name')
canonical_record_asset_key-injective kind id name kind' id' name' key h h' =
    let c = canonical_record_asset_key-IsCanonical kind id name h in
    let c' = canonical_record_asset_key-IsCanonical kind' id' name' h' in
    let parts : kind ∷ id ∷ name ∷ [] ≡ kind' ∷ id' ∷ name' ∷ [] =
      sym (IsCanonical-split kind id name c) ∙ IsCanonical-split kind' id' name' c' in
    (cc parts, cc parts, cc parts)

pub validate_record_asset_key-ne-nil :
    (kind id name key : Text)
    → validate_record_asset_key kind id name key ≡ passed
    → (name ≢ []) × (key ≢ [])
validate_record_asset_key-ne-nil kind id name key h =
    let c =
      canonical_record_asset_key-IsCanonical kind id name
        ((validate_record_asset_key_iff kind id name key).0 h) in
    (c.name_segment.ne_nil, λ e. key_of-ne-nil kind id name (sym c.key_made ∙ e))
