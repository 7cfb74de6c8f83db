-- ===== src/World/Blobs.antt =====
-- What a path of the blob directory holds after a write or a removal.
use fips_dropbox.Prelude.{
  ◌≡◌, ◌≢◌, sym, ap, ◌∙◌, false, none, some, arith, list_eq, list_eq_refl, eq_of_list_eq,
  Bool-cases, inl, inr,
}
use fips_dropbox.Prelude.Table
use fips_dropbox.Prelude.Table.Laws.{find-delete_ne}
use fips_dropbox.Text.{Text, Bytes}
use fips_dropbox.World
use fips_dropbox.World.{World, write_blob, remove_blob}

list_eq_of_ne : (a b : Text) → a ≢ b → list_eq a b ≡ false
list_eq_of_ne a b other = elim (Bool-cases (list_eq a b)) [
  | inl hit ↦ absurd (other (eq_of_list_eq a b hit))
  | inr miss ↦ miss
]

pub read_blob-blobs :
    (path : Text) (w t : World)
    → w.blobs ≡ t.blobs
    → World.read_blob path w ≡ World.read_blob path t
unfolding World.read_blob
read_blob-blobs path w t h = cc

pub read_blob-write_blob :
    (path : Text) (bytes : Bytes) (w : World)
    → World.read_blob path (write_blob path bytes w) ≡ some bytes
unfolding World.read_blob write_blob Table.find
read_blob-write_blob path bytes w = ground (arith, list_eq_refl path)

pub read_blob-remove_blob :
    (path other : Text) (w : World)
    → other ≢ path
    → World.read_blob path (remove_blob other w) ≡ World.read_blob path w
unfolding World.read_blob remove_blob
read_blob-remove_blob path other w ne =
    ap (λ o. elim o [ none ↦ none | some f ↦ some f.1 ])
      (find-delete_ne (λ f. list_eq f.0 other) (λ f. list_eq f.0 path)
        (λ f hit. list_eq_of_ne f.0 other λ same. ne (sym same ∙ eq_of_list_eq f.0 path hit))
        w.blobs)

pub read_blob-write_blob_ne :
    (path other : Text) (bytes : Bytes) (w : World)
    → other ≢ path
    → World.read_blob path (write_blob other bytes w) ≡ World.read_blob path w
unfolding World.read_blob write_blob Table.find remove_blob
read_blob-write_blob_ne path other bytes w ne =
    ground (arith, list_eq_of_ne other path ne, read_blob-remove_blob path other w ne)
