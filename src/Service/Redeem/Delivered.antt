-- ===== src/Service/Redeem/Delivered.antt =====
-- The file that a redemption returns is the one that the link was made for.
use fips_dropbox.Prelude.{◌≡◌, sym, ap, ◌∙◌, subst, Option, none, some, arith}
use mathlib.Core.Option
use fips_dropbox.Text.{Text, Bytes}
use fips_dropbox.Result.{ok, ok_unique}
use fips_dropbox.Effect.{within, within-state, within-runs, within-eq-ok, pure-eq-ok, >>=-eq-ok}
use fips_dropbox.Errors.{StorageError, io, storage}
use fips_dropbox.Platform.{Platform}
use fips_dropbox.World
use fips_dropbox.World.{World, Statement, called, execute, execute_with}
use fips_dropbox.Storage.Records.{Share, Print}
use fips_dropbox.Storage.Prints
use fips_dropbox.Storage.Prints.Digest.{maybe-eq-ok}
use fips_dropbox.Storage.Prints.Readable.{IsReadable, IsReadable-called, find-Runs, read_blob-Runs}
use fips_dropbox.Service.{App}
use fips_dropbox.Service.Inversion.{with_audit-eq-ok}
use fips_dropbox.Service.Redeem.{RedeemRequest, RedeemResponse, deliver}

module _ ⦃os : Platform⦄ where
  execute_sound :
      {A : Type 0} (statement : Statement A) (w : World) {a : A}
      → (execute statement w).0 ≡ ok a
      → os.sqlite_fault w.calls ≡ none
  unfolding execute execute_with
  execute_sound statement w h = ground arith

  io_sound :
      (w : World) {u : Unit}
      → (World.io {E = StorageError} io w).0 ≡ ok u
      → os.io_fault w.calls ≡ none
  unfolding World.io
  io_sound w h = ground arith

  find_sound :
      (id : Bytes) (w : World) {found : Option Print}
      → (Prints.find id w).0 ≡ ok found
      → os.sqlite_fault w.calls ≡ none
  unfolding Prints.find
  find_sound id w h = execute_sound _ w (within-eq-ok _ _ w h)

module _ ⦃os : Platform⦄ {kek id plaintext : Bytes} {filename : Text} {w : World}
    (r : IsReadable kek id plaintext filename w) where
  found-print :
      {found : Option Print}
      → (Prints.find id w).0 ≡ ok found
      → (found ≡ some r.print) × ((Prints.find id w).1 ≡ called w)
  found-print h =
      let run = (find-Runs r (find_sound id w h)).at in
      (ok_unique _ h (ap (λ p. p.0) run), ap (λ p. p.1) run)

  pub read_blob-content :
      {content : Bytes} {t : World}
      → Prints.read_blob kek id w ≡ (ok content, t)
      → content ≡ plaintext
  unfolding Prints.read_blob
  read_blob-content h =
      let (found, is_found, h1) = >>=-eq-ok (Prints.find id) _ w h in
      let (print, is_print, h2) = maybe-eq-ok found _ _ _ h1 in
      let (u, opened, h3) = >>=-eq-ok (World.io io) _ _ h2 in
      let sound = find_sound id w is_found in
      let sound_io =
        subst (λ v. os.io_fault v.calls ≡ none) (found-print is_found).1 (io_sound _ opened) in
      ok_unique _ (ap (λ p. p.0) h) (ap (λ p. p.0) (read_blob-Runs r sound sound_io).at)

-- What `deliver` answers, where the print of the share is readable.
pub deliver-content :
    ⦃os : Platform⦄ (app : App) (req : RedeemRequest) (share : Share) (w : World)
    {plaintext : Bytes} {filename : Text} {resp : RedeemResponse} {t : World}
    → IsReadable app.kek share.print_id plaintext filename w
    → deliver app req share w ≡ (ok resp, t)
    → (resp.content ≡ plaintext) × (resp.filename ≡ filename)
unfolding deliver
deliver-content app req share w {plaintext} {filename} r h =
    let (found, is_found, h1) = >>=-eq-ok (within storage (Prints.find share.print_id)) _ w h in
    let (print, is_print, h2) = maybe-eq-ok found _ _ _ h1 in
    let (content, reading, h3) =
      >>=-eq-ok (within storage (Prints.read_blob app.kek share.print_id)) _ _ h2 in
    let (u, written, h4) = >>=-eq-ok _ _ _ (with_audit-eq-ok _ _ h3) in
    let answer = pure-eq-ok _ _ h4 in
    let (same, after) =
      found-print r (within-eq-ok storage (Prints.find share.print_id) w is_found) in
    let readable =
      subst (IsReadable app.kek share.print_id plaintext filename)
        (sym (within-state storage (Prints.find share.print_id) w ∙ after))
        (IsReadable-called w r) in
    (
      ap (λ a. a.content) (sym answer)
          ∙ read_blob-content readable
              (within-runs storage (Prints.read_blob app.kek share.print_id) _ reading),
      ap (λ a. a.filename) (sym answer)
          ∙ ap (λ p. p.filename) (Option.some-injective print r.print (sym is_print ∙ same))
          ∙ r.named,
    )
