-- ===== src/Tests/Reassembly.antt =====
-- The accumulator on the fragments of one message (callstack/sms/reassembly.py).
use callstack.Prelude.{ℕ, refl, true, List, [], ◌∷◌, arith, codes, if◌then◌else◌, ◌==◌}
use callstack.Pdu.Udh.{MultipartInfo}
use callstack.Reassembly.{
  MultipartAccumulator, validate_multipart_info, lookup_group, lookup_part, add_part,
}
use callstack.Reassembly.Covers.{covers}
use callstack.Reassembly.Invariant.{IsAccumulator, Keeps}
use callstack.Reassembly.AddPart.{add_part-Keeps}
use callstack.Reassembly.Message.{Message, message_key}
use callstack.Reassembly.Delivery.{deliver, numbers, Delivered, deliver_lem}

abbrev greeting : Message
greeting = record {
  sender = codes "+15551234";
  reference = 7;
  total_parts = 2;
  is_16bit = true;
  body = λ s. if s == 1 then codes "hello " else codes "world";
}

abbrev second : MultipartInfo
second = record { reference = 7; total_parts = 2; sequence = 2; is_16bit = true }

-- The second part came first, at time 10.
abbrev waiting : MultipartAccumulator
waiting = record {
  max_age = 100;
  max_groups = 1;
  pending =
      (
        message_key greeting,
        record { total_parts = 2; first_seen = 10; parts = (2, codes "world") ∷ [] },
      )
      ∷ [];
}

waiting-IsAccumulator : IsAccumulator waiting
unfolding lookup_group lookup_part
waiting-IsAccumulator = record {
  aged = omega arith;
  roomy = omega arith;
  bounded = omega arith;
  unique = (refl, tt);
  groups = (
    record {
      keyed = refl;
      distinct = (refl, tt);
      in_range = (omega arith, omega arith, tt);
      started = omega arith;
      unfinished = omega arith;
    },
    tt,
  );
}

add_part-Keeps_example :
    Keeps waiting (add_part waiting (codes "+15551234") second (codes "again") 50)
add_part-Keeps_example =
    add_part-Keeps waiting (codes "+15551234") second (codes "again") 50 waiting-IsAccumulator

abbrev out_of_order : List (ℕ × ℕ)
out_of_order = (2, 10) ∷ (2, 11) ∷ (1, 90) ∷ []

abbrev nothing_pending : MultipartAccumulator
nothing_pending = record { max_age = 100; max_groups = 1; pending = [] }

deliver_lem_example :
    Delivered greeting
      (covers (numbers out_of_order []) 2)
      (deliver nothing_pending greeting out_of_order)
unfolding validate_multipart_info lookup_group
deliver_lem_example =
    deliver_lem greeting nothing_pending 2 10 ((2, 11) ∷ (1, 90) ∷ []) refl
      ((refl, omega arith, (refl, omega arith, (refl, omega arith, tt))))
