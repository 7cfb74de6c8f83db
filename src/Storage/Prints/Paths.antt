-- ===== src/Storage/Prints/Paths.antt =====
-- `rel_blob_path` of crates/storage/src/prints.rs: two identifiers have two paths.
use fips_dropbox.Prelude.{
  ℕ, ◌≡◌, refl, sym, ap, ◌∙◌, [], ◌∷◌, arith, codes, length, drop, cancel_left, cancel_right,
}
use fips_dropbox.Text.{Bytes}
use fips_dropbox.Platform.{Platform}
use fips_dropbox.Storage.Prints.{blob_prefix, rel_blob_path}

-- No two calls of `Uuid::now_v7` give the same identifier, and no two identifiers the same text.
pub record IsUnique (os : Platform) : Type 0 where
  pub ids : (c d : ℕ) → os.now_v7 c ≡ os.now_v7 d → c ≡ d
  pub texts :
      (a b : Bytes)
      → length a ≡ 16
      → length b ≡ 16
      → os.uuid_to_string a ≡ os.uuid_to_string b
      → a ≡ b

module _ ⦃os : Platform⦄ where
  length-blob_prefix : (id : Bytes) → length id ≡ 16 → length (blob_prefix id) ≡ 2
  unfolding blob_prefix
  length-blob_prefix [] h = absurd (ground arith)
  length-blob_prefix (b ∷ id) h = refl

  pub rel_blob_path-injective :
      (a b : Bytes)
      → IsUnique os
      → length a ≡ 16
      → length b ≡ 16
      → rel_blob_path a ≡ rel_blob_path b
      → a ≡ b
  unfolding rel_blob_path
  rel_blob_path-injective a b unique ha hb e = unique.texts a b ha hb (
      cancel_right (os.uuid_to_string a) (os.uuid_to_string b) (codes ".enc") (
        ap (drop 1) (
          cancel_left (blob_prefix a) (blob_prefix b) _ _
            (length-blob_prefix a ha ∙ sym (length-blob_prefix b hb)) e)))
