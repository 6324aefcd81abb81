-- ===== src/Examples/Bundles.antt =====
-- The theorems on the queueing sender and on the awaited event at concrete inputs.
use mathlib.Core.Option
use falcon_smart_account.Prelude.{ℕ, ◌+◌, ◌≡◌, refl, false, none, some, [], ◌∷◌, if◌then◌else◌}
use falcon_smart_account.Prelude.Digits.{be_bytes, be_value}
use falcon_smart_account.Js.{codes, hex_digits, hex_digit, digit_value}
use falcon_smart_account.Outcome.{ok, throws, value_too_long}
use falcon_smart_account.Ethers.Reference.{
  reference, hex_zero_pad, hex_data_slice, bytes_of, digits_concat,
}
use falcon_smart_account.UserOp.Pack.{pack_user_op, pack_account_gas_limits, has_paymaster, pad16}
use falcon_smart_account.UserOp.Bytes.{packed_bytes}
use falcon_smart_account.Signer.Queue.{
  OpQueue, QueueSender, waiting, failed, enqueue, collect, push, push_collected, more_than,
  idle_time,
}
use falcon_smart_account.Signer.Queue.Order.{push-drops}
use falcon_smart_account.Signer.Queue.Runs.{
  World, initial, after_push, Reach, here, next, enqueued, push-timing,
}
use falcon_smart_account.Signer.Response.{
  Event, Receipt, Topic, State, awaiting_block, continue_at, listener, start, Heard, starts,
  event_comes, timer_finds, goes_on,
}
use falcon_smart_account.Signer.Response.Settles.{IsSettled, Heard-IsSettled}
use falcon_smart_account.Examples.Values.{alice, bob, of_alice, of_bob}

abbrev queued : World
queued = record (initial none) {
  sender = enqueue of_alice 1000 (initial none).sender;
  enqueued = 1;
}

queued-Reach : Reach reference (initial none) queued
queued-Reach = next here (enqueued (initial none) of_alice 1000)

abbrev flying : World
flying = after_push reference queued (push reference 7000 queued.sender)

push-timing_example : push reference 5500 queued.sender ≡ (
    if more_than (Option.map (λ n. n + idle_time) queued.sender.last_queue_update) 5500
    then (queued.sender, waiting)
    else push_collected queued.sender (collect reference queued.sender.queue))
push-timing_example = push-timing reference none queued-Reach 5500 queued_idle
  where
    queued_idle : queued.in_flight ≡ none
    queued_idle = refl

abbrev two_queues : OpQueue
two_queues = (alice, of_alice ∷ of_alice ∷ []) ∷ (bob, of_bob ∷ []) ∷ []

abbrev one_queue : OpQueue
one_queue = (bob, []) ∷ (alice, of_alice ∷ of_alice ∷ []) ∷ []

one_queue_packs : (collect reference one_queue).failure ≡ none
unfolding collect pack_user_op pack_account_gas_limits has_paymaster pad16 reference hex_zero_pad
    hex_data_slice bytes_of digits_concat hex_digits hex_digit be_bytes be_value digit_value
one_queue_packs = refl

abbrev idle_sender : QueueSender
idle_sender = record {
  queue = two_queues;
  queue_size = none;
  last_queue_update = some 1000;
  interval = none;
  sending = false;
}

of_alice_packs : pack_user_op reference of_alice ≡ ok (packed_bytes of_alice [])
unfolding pack_user_op pack_account_gas_limits has_paymaster pad16 reference hex_zero_pad
    hex_data_slice bytes_of digits_concat hex_digits hex_digit be_bytes be_value digit_value
of_alice_packs = refl

of_bob_throws : pack_user_op reference of_bob ≡ throws value_too_long
unfolding pack_user_op pack_account_gas_limits has_paymaster pad16 reference hex_zero_pad
    hex_data_slice bytes_of digits_concat hex_digits hex_digit be_bytes be_value digit_value
of_bob_throws = refl

push-drops_example : push reference 9000 idle_sender ≡ (
  record idle_sender { queue = (alice, of_alice ∷ []) ∷ (bob, []) ∷ [] },
  failed value_too_long,
)
push-drops_example =
    push-drops reference bob of_bob [] [] value_too_long of_bob_throws idle_sender 9000
      ((alice, of_alice ∷ of_alice ∷ []) ∷ []) refl refl refl refl
      ((packed_bytes of_alice [], of_alice_packs), tt)

-- Two events of one operation, which failed: the first one comes before the other call has its
-- receipt, and the block's reason is filed under the operation's hash.
abbrev mined : Receipt
mined = record { transaction_hash = codes "0xaa"; status = 1 }

abbrev failed_event : ℕ → Event
failed_event block_number = record {
  block_number = block_number;
  args = some (record { user_op_hash = codes "0x01"; success = false });
  receipt = ok mined;
  revert_reasons = ok (record { user_op_hash = codes "0x01"; reason = codes "0xbad0" } ∷ []);
}

abbrev of_sender : Topic
of_sender = λ value. ok value

abbrev heard : State
heard = listener (failed_event 13) (listener (failed_event 12) start)

abbrev now_awaiting : State
now_awaiting =
    continue_at of_sender (codes "0x01") (codes "0x07") (ok 11) []
      (awaiting_block (failed_event 12)) (awaiting_block (failed_event 13) ∷ []) heard

now_awaiting-Heard :
    Heard of_sender
      (codes "0x01")
      (codes "0x07")
      (ok 11)
      (failed_event 13 ∷ failed_event 12 ∷ [])
      now_awaiting
unfolding listener
now_awaiting-Heard =
    goes_on (timer_finds (event_comes starts (failed_event 12) refl) (failed_event 13)) []
      (awaiting_block (failed_event 12)) (awaiting_block (failed_event 13) ∷ []) refl

Heard-IsSettled_example :
    IsSettled of_sender
      (codes "0x01")
      (codes "0x07")
      (ok 11)
      (failed_event 13 ∷ failed_event 12 ∷ [])
      now_awaiting
Heard-IsSettled_example =
    Heard-IsSettled of_sender (codes "0x01") (codes "0x07") (ok 11) now_awaiting-Heard
