-- ===== src/Sms/Types.antt =====
-- The messages and the delivery reports of callstack/sms/types.py. A `datetime` is its instant, a
-- number.
use callstack.Prelude.{ℕ, Bool, ◌||◌, Option, Text, codes, text_eq}

-- `SMS`
pub record Sms : Type 0 where
  pub sender : Text
  pub recipient : Text
  pub body : Text
  pub timestamp : Option ℕ
  pub status : Text
  pub reference : ℕ
  pub id : Option ℕ
  pub storage_index : Option ℕ

-- `SMS.is_incoming`
unfoldable pub is_incoming : Sms → Bool
is_incoming m =
    text_eq m.status (codes "REC UNREAD")
    || text_eq m.status (codes "REC READ")
    || text_eq m.status (codes "unread")
    || text_eq m.status (codes "read")

-- `DeliveryReport`
pub record DeliveryReport : Type 0 where
  pub reference : ℕ
  pub recipient : Text
  pub status : Text
  pub timestamp : Option ℕ
  pub discharge_time : Option ℕ
  pub id : Option ℕ
  pub message_id : Option ℕ
