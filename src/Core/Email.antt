-- ===== src/Core/Email.antt =====
-- app/core/email.py: one plain-text mail for each call. The SMTP server is a field of `Mailing`, with
-- what the mail's text takes from Python and from the database.
use Prim.Native.String.{String}
use inventory_management_api.Base.{⊤, ℕ, ◌+◌, Bool, List, [], ◌∷◌, if◌then◌else◌}
use inventory_management_api.Base.Int.{ℤ}
use inventory_management_api.Errors.{smtp_exception, Result, ok, err}
use inventory_management_api.Models.{Timestamp, Alert}
use inventory_management_api.Session.{World}

pub record Mailing : Type 0 where
  -- Whether the n-th exchange with the server goes through.
  pub smtp_accepts : ℕ → Bool
  -- `str` of an integer.
  pub str_int : ℤ → String
  -- The column that the database fills when the alert is inserted.
  pub created_at : Alert → Timestamp

pub record Mail : Type 0 where
  pub to : List String
  pub subject : String
  pub body : String

-- What a task works on: the database, the mails that the server has taken, the latest first, and the
-- number of exchanges with it.
pub record Post : Type 0 where
  pub world : World
  pub outbox : List Mail
  pub exchanges : ℕ

module _ ⦃mailing : Mailing⦄ where
  -- `with smtplib.SMTP(…) as client: …`
  abbrev pub exchange : Mail → Post → Result ⊤ × Post
  exchange mail p =
      if mailing.smtp_accepts p.exchanges
      then (ok tt, record p { outbox = mail ∷ p.outbox; exchanges = p.exchanges + 1 })
      else (err smtp_exception, record p { exchanges = p.exchanges + 1 })

  -- `send_email`
  unfoldable pub send_email : (to : List String) → (subject body : String) → Post → Result ⊤ × Post
  send_email [] subject body p = (ok tt, p)
  send_email (address ∷ addresses) subject body p =
      exchange (record { to = address ∷ addresses; subject = subject; body = body }) p
