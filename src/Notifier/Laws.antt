-- ===== src/Notifier/Laws.antt =====
-- What a mail that left holds, and over which connection it left.
use fips_dropbox.Prelude.{◌≡◌, none, arith}
use fips_dropbox.Text.{Text}
use fips_dropbox.Result.{ok}
use fips_dropbox.Notifier.{SmtpConfig, SmtpSender, Mail, Lettre, new_sender, send}

module _ ⦃lettre : Lettre⦄ where
  -- A sender is made only for a sender address that lettre parses, and connects only in the mode of
  -- TLS and to the relay and the port of the settings; and a mail that it then sends is from that
  -- address, to an address that lettre parses, with the subject and the bodies given, and lettre
  -- took it.
  pub send-new_sender :
      (cfg : SmtpConfig) (s : SmtpSender) (to subject body_text body_html : Text) (m : Mail)
      → new_sender cfg ≡ ok s
      → send s to subject body_text body_html ≡ ok m
      → (s.transport.tls ≡ cfg.tls)
        × (s.transport.relay ≡ cfg.host)
        × (s.transport.port ≡ cfg.port)
        × (lettre.parse_address cfg.from_address ≡ ok m.from.address)
        × (lettre.parse_address to ≡ ok m.to.address)
        × (m.subject ≡ subject)
        × (m.body_text ≡ body_text)
        × (m.body_html ≡ body_html)
        × (lettre.send_error s.transport m ≡ none)
  unfolding new_sender send
  send-new_sender cfg s to subject body_text body_html m made sent = (
    ground arith,
    ground arith,
    ground arith,
    ground arith,
    ground arith,
    ground arith,
    ground arith,
    ground arith,
    ground arith,
  )
