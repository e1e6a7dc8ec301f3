-- ===== src/Tests/Sms.antt =====
-- The service of callstack/sms/service.py on one slot of the modem and on one message to send.
use callstack.Prelude.{
  map, ◌⊎◌, if◌then◌else◌, ◌≡◌, refl, true, false, [], ◌∷◌, none, some, Text, codes, text_eq,
  starts_with,
}
use callstack.Modem.{Answer, responded}
use callstack.Sms.Types.{Sms}
use callstack.Sms.Database.{nothing, transact, execute, insert_message, commit}
use callstack.Protocol.Commands.{read_sms, delete_sms, decimal_digits}
use callstack.Protocol.Lines.{lstrip, is_space}
use callstack.Protocol.Parser.Scan.{after, at_end, number, digits_from, quoted, up_to_mark}
use callstack.Sms.Store.{
  save, finish_save, write_message, assign_id, on_connection, write_statement,
}
use callstack.Sms.Service.{
  Service, finished, incoming, send, read_message, delete_message, delete_slot,
}
use callstack.Sms.Service.Replies.{
  parse_message_list, parse_single_message, cmgr_header, header_groups, last_group, unquoted,
  message_of, body_lines, cmgl_header, is_final_result_code, join_lines,
}
use callstack.Sms.Service.Incoming.{on_notification, keep_sms, already_accepted}
use callstack.Sms.Service.Payload.{payload, IsPayload, payload-IsPayload}
use callstack.Sms.Service.Announced.{Announcement, notify_all, unread, notify_all-once}
use callstack.Sms.Service.Listing.{Entry, IsEntry, printed_list, listed_sms, parse-printed_list}
use callstack.Sms.Service.Stored.{IsSent, send-IsSent}
use callstack.Sms.Service.Received.{IsIgnored, IsReceived, on_notification-IsReceived}
use callstack.Tests.Store.{open_store, alice-IsKeyed}

-- A modem that has a message at every index and refuses to delete it.
abbrev refusing : Text → Answer
refusing command =
    if starts_with (codes "AT+CMGR=") command
    then responded true (
        codes "+CMGR: \"REC UNREAD\",\"+15557654\",\"\",\"24/12/25,14:30:00+04\""
        ∷ codes "hi"
        ∷ codes "OK"
        ∷ [])
    else responded false (codes "ERROR" ∷ [])

abbrev arrived : Sms
arrived = record {
  sender = codes "+15557654";
  recipient = [];
  body = codes "hi";
  timestamp = some 3;
  status = codes "REC UNREAD";
  reference = 0;
  id = none;
  storage_index = some 2;
}

abbrev idle : Service
idle = record { store = open_store; slots = []; report_slots = []; emitted = [] }

abbrev noted : Announcement
noted = record { execute = refusing; fault = nothing }

arrived_read : read_message (λ t. some 3) refusing 2 ≡ finished (some arrived)
unfolding read_message read_sms starts_with parse_single_message cmgr_header header_groups
    last_group unquoted message_of body_lines cmgl_header is_final_result_code join_lines after
    at_end number quoted up_to_mark lstrip is_space decimal_digits text_eq digits_from
arrived_read = refl

arrived_kept : (keep_sms nothing (unread arrived) idle).1 ≡ true
unfolding keep_sms save finish_save write_message assign_id on_connection transact execute
    write_statement insert_message commit
arrived_kept = refl

arrived_refused : delete_slot refusing 2 ≡ false
unfolding delete_slot delete_message delete_sms starts_with decimal_digits
arrived_refused = refl

payload-IsPayload_example : IsPayload (codes "a{b") (payload (codes "a{b"))
payload-IsPayload_example = payload-IsPayload (codes "a{b")

notify_all-once_example :
    ((notify_all (λ t. some 3) (codes "SM", 2) (noted ∷ noted ∷ []) idle).emitted
      ≡ incoming (codes "+15557654") (codes "hi") ∷ [])
    × ((notify_all (λ t. some 3) (codes "SM", 2) (noted ∷ noted ∷ []) idle).store
        ≡ (save nothing (unread arrived) open_store).0)
notify_all-once_example =
    notify_all-once (λ t. some 3) noted (noted ∷ []) (codes "SM", 2) arrived idle
      (unfold already_accepted in refl) arrived_kept (arrived_read, arrived_refused, arrived_read)

on_notification-IsReceived_example :
    IsIgnored idle (on_notification (λ t. some 3) refusing nothing (codes "SM", 2) idle).0
    ⊎ IsReceived idle (on_notification (λ t. some 3) refusing nothing (codes "SM", 2) idle).0
on_notification-IsReceived_example =
    on_notification-IsReceived (λ t. some 3) refusing nothing (codes "SM", 2) idle alice-IsKeyed

send-IsSent_example : IsSent (codes "+15551234") (codes "hello") idle (
    send
      (λ c. responded true (codes ">" ∷ []))
      (λ b. responded true (codes "+CMGS: 12" ∷ codes "OK" ∷ []))
      nothing
      5
      (codes "+15551234")
      (codes "hello")
      idle)
send-IsSent_example =
    send-IsSent (λ c. responded true (codes ">" ∷ []))
      (λ b. responded true (codes "+CMGS: 12" ∷ codes "OK" ∷ [])) nothing 5 (codes "+15551234")
      (codes "hello") idle alice-IsKeyed

-- A message of two lines on the SIM.
abbrev listed : Entry
listed = record {
  index = 12;
  header = record {
    status = codes "REC READ";
    sender = codes "+15557654";
    time = codes "24/12/25,14:30:00+04";
  };
  lines = codes "first" ∷ codes "+CMGL second" ∷ [];
}

listed-IsEntry : IsEntry listed
unfolding is_final_result_code text_eq starts_with cmgl_header after
listed-IsEntry = ((refl, refl, refl), refl)

parse-printed_list_example :
    parse_message_list (λ t. some 3) (printed_list (listed ∷ listed ∷ []))
    ≡ map (listed_sms (λ t. some 3)) (listed ∷ listed ∷ [])
parse-printed_list_example =
    parse-printed_list (λ t. some 3) (listed ∷ listed ∷ []) (listed-IsEntry, (listed-IsEntry, tt))
