-- ===== src/Examples/Callbacks.antt =====
-- internal/app/callback: a callback of a vendor, and the receipt that it brings.
use startlink.Base.{arith, ◌+◌, ◌<◌, ◌++◌, true, false, [], ◌∷◌, some, ◌≡◌, refl}
use startlink.Domain.Status.{PushStatus, ReceiptEvent}
use startlink.Domain.Text.{
  codes, text_eq, trim_space, trim_left, is_space, digits_from, digits, atoi,
}
use startlink.Records.Rows.{PushRecord}
use startlink.Callbacks.Verifier.{
  Verifier, Crypto, accepted, fits, parse_int, in_skew, trim_prefix, hex_digit, put_byte,
  decode_string, hex_char, encode_to_string, nonce_key, signed_text, signature_of, signed_by,
  is_signed, lives, set_nx, after_set, verify,
}
use startlink.Callbacks.Verifier.Once.{Request, receive, receive_all, receive-once}
use startlink.Callbacks.Verifier.Accepted.{signed_by-encode}
use startlink.Callbacks.Receipts.{ReceiptInput, Services, World, handle}
use startlink.Callbacks.Receipts.Applied.{alone}
use startlink.Callbacks.Receipts.Repeated.{Same, handle-again}

abbrev verifier : Verifier
verifier = record {
  required = true;
  secret = codes "01234567890123456789012345678901";
  max_skew = 5;
  has_store = true;
}

-- A mac of one byte, and the nonce for its own hash.
abbrev crypto : Crypto
crypto = record { mac = λ key text. 171 ∷ []; sha256 = λ text. text }

-- The second comes at the end of the time of the first, and waits for the store.
abbrev first : Request
first = record {
  now = 2000000000;
  later = 2000000000;
  fails = false;
  timestamp = codes "2";
  nonce = codes "nonce-01";
  signature = codes "sha256=ab";
  body = [];
}

abbrev second : Request
second = record first { now = 2000000005; later = 2000000011 }

first_accepted : (receive verifier crypto first []).0 ≡ accepted
unfolding receive verify is_signed parse_int fits atoi digits digits_from in_skew signed_by
    signed_text signature_of trim_space trim_left is_space trim_prefix decode_string hex_digit
    put_byte text_eq nonce_key encode_to_string hex_char set_nx lives after_set
first_accepted = refl

second_accepted :
    (receive verifier crypto second
      (receive_all verifier crypto [] (receive verifier crypto first []).1)).0
    ≡ accepted
unfolding receive receive_all verify is_signed parse_int fits atoi digits digits_from in_skew
    signed_by signed_text signature_of trim_space trim_left is_space trim_prefix decode_string
    hex_digit put_byte text_eq nonce_key encode_to_string hex_char set_nx lives after_set
second_accepted = refl

receive-once_example : 2000000005 + 2000000000 < 2000000000 + 2000000011
receive-once_example =
    receive-once verifier crypto first second [] [] refl refl refl first_accepted second_accepted

signed_by-encode_example :
    (signed_by crypto [] [] (signature_of (encode_to_string (171 ∷ []))) ≡ true)
    × (signed_by crypto [] [] (signature_of (codes "sha256=" ++ encode_to_string (171 ∷ [])))
        ≡ true)
signed_by-encode_example = signed_by-encode crypto [] [] (omega arith, tt)

abbrev sent_record : PushRecord
sent_record = record {
  id = 900;
  main_task_id = 7;
  sub_task_id = 70;
  user_id = "u2";
  channel = "sms";
  content = "hello";
  status = PushStatus.sent;
  provider = "sms";
  provider_id = some "m-1";
  error_msg = "";
  is_test = false;
  experiment_group = "";
  sent_at = some 30;
  updated_at = 30;
}

abbrev services : Services
services = record {
  clock = λ i. 100 + i;
  db_fails = λ i. false;
  others = λ i rows. rows;
  other_receipts = λ i rows. rows;
  other_mains = λ i rows. rows;
  has_tasks = true;
  clip = λ t. t;
}

abbrev callback : ReceiptInput
callback = record {
  provider_id = "m-1";
  provider = "";
  channel = "sms";
  event = some ReceiptEvent.failed;
  raw_payload = "rejected";
}

abbrev world : World
world = record { calls = 0; records = sent_record ∷ []; receipts = []; mains = [] }

handle-again_example :
    Same
      (handle (alone services) callback world).0
      (handle (alone services) callback world).1
      (handle (alone services) callback (handle (alone services) callback world).1).0
      (handle (alone services) callback (handle (alone services) callback world).1).1
handle-again_example = handle-again services callback world
