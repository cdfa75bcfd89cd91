-- ===== src/Tests/Updates.antt =====
-- Runs of the bot's polls and of its dispatcher.
use mathlib.Core.Path.{subst}
use price_scount.Base.Text.{format_int}
use price_scount.Base.{
  ℕ, ◌≡◌, refl, true, false, none, some, List, [], ◌∷◌, ◌≤◌, leb, arith, Bool-cases, inl, inr,
  if◌then◌else◌,
}
use price_scount.Bot.Updates.{
  Update, update_chat_id, fnv32a, queue_index, System, receive, accept, enqueue_at, enqueue, work,
  new_dispatcher, started, received, enqueued, worked,
}
use price_scount.Bot.Updates.Serial.Reached.{IsServed, Reach-IsServed}
use price_scount.Bot.Updates.Offsets.{
  Round, Within, Ascending, past, poll_updates, poll_updates-Within, poll_updates-answered, forward,
}

fnv_of_a : fnv32a 2166136261 "a" ≡ 3826002220
unfolding fnv32a
fnv_of_a = refl

abbrev first_update : Update
first_update = record {
  update_id = 11;
  message = some (record { chat = some 7; text = "/mylist" });
  callback_query = none;
}

abbrev pressed_update : Update
pressed_update = record {
  update_id = 13;
  message = none;
  callback_query =
      some
        (record { message = some (record { chat = some 7; text = "" }); callback_data = "page:2" });
}

abbrev chatless_update : Update
chatless_update = record { update_id = 12; message = none; callback_query = none }

-- Two updates of a chat arrive, and the first is handled while the second waits.
abbrev second_waits : System
second_waits = work 6 (
    work 6 (
      work 6 (
        enqueue (
          receive (some pressed_update) (
            receive (some chatless_update)
              (enqueue (receive (some first_update) new_dispatcher)))))))

second_waits_handled : second_waits.handled ≡ first_update ∷ []
unfolding work enqueue enqueue_at receive accept update_chat_id queue_index fnv32a format_int
second_waits_handled = refl

second_waits_queue : second_waits.queues 6 ≡ pressed_update ∷ []
unfolding work enqueue enqueue_at receive accept update_chat_id queue_index fnv32a format_int
second_waits_queue = refl

Reach-IsServed_example : IsServed second_waits 7
Reach-IsServed_example =
    Reach-IsServed
      (worked 6 (
        worked 6 (
          worked 6 (
            enqueued (
              received (some pressed_update) (
                received (some chatless_update)
                  (enqueued (received (some first_update) started))))))))
      7

-- Telegram with three updates: an error, then the first two, and after them the third.
abbrev answers : ℕ → List Update
answers offset =
    if leb offset 11
    then first_update ∷ chatless_update ∷ []
    else if leb offset 13
    then pressed_update ∷ []
    else []

leb-small : (a b : ℕ) → leb a b ≡ true → a ≤ b
leb-small a b h = ground (arith, h)

answers-Within : (offset : ℕ) → Within offset (answers offset) (past offset (answers offset))
answers-Within offset = elim (Bool-cases (leb offset 11)) [
  | inl e ↦ rw e (omega (arith, leb-small offset 11 e), (omega arith, omega arith))
  | inr e ↦ elim (Bool-cases (leb offset 13)) [
    | inl t ↦ rw (e, t) (omega (arith, leb-small offset 13 t), omega arith)
    | inr t ↦ rw (e, t) (omega arith)
  ]
]

abbrev good_round : Round
good_round = record { is_done = false; answer = λ o. some (answers o); waits = true; cut = none }

abbrev failed_round : Round
failed_round = record { is_done = false; answer = λ o. none; waits = true; cut = none }

-- The context is done after the first update of the batch.
abbrev cut_round : Round
cut_round = record { is_done = false; answer = λ o. some (answers o); waits = true; cut = some 1 }

good_round-Ascending : Ascending good_round
good_round-Ascending offset us e =
    let same : answers offset ≡ us = ground (arith, e) in
    subst (λ v. Within offset v (past offset v)) same (answers-Within offset)

failed_round-Ascending : Ascending failed_round
failed_round-Ascending offset us e = absurd (ground (arith, e))

poll_updates-Within_example :
    Within 0
      (poll_updates 0 (failed_round ∷ cut_round ∷ good_round ∷ [])).1
      (poll_updates 0 (failed_round ∷ cut_round ∷ good_round ∷ [])).0
poll_updates-Within_example =
    poll_updates-Within 0 (failed_round ∷ cut_round ∷ good_round ∷ [])
      (failed_round-Ascending, (good_round-Ascending, (good_round-Ascending, tt)))

cut_short : poll_updates 0 (failed_round ∷ cut_round ∷ good_round ∷ []) ≡ (13, first_update ∷ [])
unfolding poll_updates forward
cut_short = refl

poll_updates-answered_example :
    (poll_updates 0 (failed_round ∷ good_round ∷ good_round ∷ [])).1
    ≡ first_update ∷ chatless_update ∷ pressed_update ∷ []
poll_updates-answered_example =
    poll_updates-answered 0 (failed_round ∷ good_round ∷ good_round ∷ [])
      (failed_round-Ascending, (good_round-Ascending, (good_round-Ascending, tt)))
      (refl, (refl, (refl, tt)))
