-- ===== src/Notifier.antt =====
-- crates/notifier: the senders of mails and messages. The addresses and the connections are those
-- of the crate lettre.
pub mod Laws
use fips_dropbox.Prelude.{ℕ, Option, none, some, ◌∷◌, ◌++◌, codes}
use fips_dropbox.Text.{Text, decimal}
use fips_dropbox.Result.{Result, ok, err, panic, ◌>>=◌}

pub data NotifyError : Type 0 where
  transport config : Text → NotifyError

pub data TlsMode : Type 0 where
  starttls implicit_tls : TlsMode

pub record SmtpConfig : Type 0 where
  pub host : Text
  pub port : ℕ
  pub username : Text
  pub password : Text
  pub from_address : Text
  pub from_display_name : Option Text
  pub tls : TlsMode

-- A mailbox: the name that is shown, and the address.
pub record Mailbox : Type 0 where
  pub name : Option Text
  pub address : Text

pub record Mail : Type 0 where
  pub from : Mailbox
  pub to : Mailbox
  pub subject : Text
  pub body_text : Text
  pub body_html : Text

-- A connection: the mode of TLS, the relay, and the credentials.
pub record Transport : Type 0 where
  pub tls : TlsMode
  pub relay : Text
  pub port : ℕ
  pub username : Text
  pub password : Text

-- What lettre answers: an error is its text.
pub record Lettre : Type 0 where
  pub parse_address : Text → Result Text Text
  pub relay_error : TlsMode → Text → Option Text
  pub build_error : Mail → Option Text
  pub send_error : Transport → Mail → Option Text

pub record SmtpSender : Type 0 where
  pub transport : Transport
  pub from : Mailbox
  pub host : Text
  pub port : ℕ

abbrev pub tls_error : TlsMode → Text → NotifyError
tls_error starttls e = config (codes "starttls_relay: " ++ e)
tls_error implicit_tls e = config (codes "relay: " ++ e)

-- `map_err` of a call that answers nothing else.
abbrev pub refused_by : Option Text → (Text → NotifyError) → Result NotifyError Unit
refused_by none wrap = ok tt
refused_by (some e) wrap = err (wrap e)

-- `map_err` of a parsed address.
abbrev pub parsed : Result Text Text → (Text → NotifyError) → Result NotifyError Text
parsed (ok address) wrap = ok address
parsed (err e) wrap = err (wrap e)
parsed panic wrap = panic

abbrev quoted : Text → Text → Text → Text
quoted before text e = before ++ (text ++ (codes "': " ++ e))

module _ ⦃lettre : Lettre⦄ where
  -- `SmtpSender::new`
  unfoldable pub new_sender : SmtpConfig → Result NotifyError SmtpSender
  new_sender cfg = do
    from_addr ←
        parsed (lettre.parse_address cfg.from_address)
          (λ e. config (quoted (codes "bad from_address '") cfg.from_address e))
    tls_ready ← refused_by (lettre.relay_error cfg.tls cfg.host) (tls_error cfg.tls)
    ok (record {
      transport = record {
        tls = cfg.tls;
        relay = cfg.host;
        port = cfg.port;
        username = cfg.username;
        password = cfg.password;
      };
      from = record { name = cfg.from_display_name; address = from_addr };
      host = cfg.host;
      port = cfg.port;
    })

  abbrev pub mail_of : SmtpSender → Text → Text → Text → Text → Mail
  mail_of s to_addr subject body_text body_html = record {
    from = s.from;
    to = record { name = none; address = to_addr };
    subject = subject;
    body_text = body_text;
    body_html = body_html;
  }

  -- `send` of the SMTP sender: the mail that left, for the connection that took it.
  unfoldable pub send : SmtpSender → Text → Text → Text → Text → Result NotifyError Mail
  send s to subject body_text body_html = do
    to_addr ← parsed (lettre.parse_address to) (λ e. transport (quoted (codes "bad to '") to e))
    built ←
        refused_by (lettre.build_error (mail_of s to_addr subject body_text body_html))
          (λ e. transport (codes "build message: " ++ e))
    sent ←
        refused_by (lettre.send_error s.transport (mail_of s to_addr subject body_text body_html))
          (λ e. transport (codes "send: " ++ e))
    ok (mail_of s to_addr subject body_text body_html)

unfoldable pub summary : SmtpSender → Text
summary s = s.host ++ b':' ∷ decimal 5 s.port

-- `Null`: nothing is sent, and nothing fails.
unfoldable pub null_email : Text → Text → Text → Text → Result NotifyError Unit
null_email to subject text html = ok tt

unfoldable pub null_sms : Text → Text → Result NotifyError Unit
null_sms to body = ok tt
