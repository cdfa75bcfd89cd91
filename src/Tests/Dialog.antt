-- ===== src/Tests/Dialog.antt =====
-- Runs of the bot: its texts, its list, its client and its dialog.

use price_scount.Base.{
  ℕ, ◌≤◌, ◌≡◌, refl, String, true, false, none, some, List, [], ◌∷◌, ltb, str_eq, length,
  if◌then◌else◌, arith,
}
use price_scount.Base.Int.{Float64}
use price_scount.Bot.Text.{utf16_units, fitting, truncate_utf16, parse_price}
use price_scount.Bot.Text.Units.{Longest, truncate_utf16-Longest}
use price_scount.Bot.Pages.{Listed, paginate, build_my_list_page}
use price_scount.Bot.Pages.Whole.{joined, AllShown, Nearest, build_my_list_page-shows}
use price_scount.Bot.Client.{Exchange, LookupResult, perform, poll_lookup}
use price_scount.Bot.Client.Polling.{Stopped, poll_lookup-Stopped}
use price_scount.Bot.Dialog.{Gateway, Formats, BotState}
use price_scount.Bot.Dialog.Lookup.{polled, finish_lookup, release_lookup}
use price_scount.Bot.Dialog.Handlers.{handle_message, send_attempts, send_delays}
use price_scount.Bot.Dialog.Safety.{IsSound}
use price_scount.Bot.Dialog.Safety.Reached.{
  new_bot, started, messaged, finished, released, Reach-IsSound,
}
use price_scount.Tests.Samples.{sample_env, price}

-- Texts.

truncated : truncate_utf16 "чайник" 4 ≡ "чай…"
unfolding truncate_utf16 utf16_units fitting
truncated = refl

truncate_utf16-Longest_example :
    (utf16_units (truncate_utf16 "чайник" 4) ≤ 4) × Longest "чайник" 4 (truncate_utf16 "чайник" 4)
truncate_utf16-Longest_example = truncate_utf16-Longest "чайник" 4

-- The list.

abbrev kettle : Listed
kettle = record {
  id = "3";
  product_name = "Kettle";
  product_url = "https://www.wildberries.ru/catalog/1/detail.aspx";
  min_price = some (price 200);
  max_price = some (price 900);
  paused = false;
}

abbrev twelve : List Listed
twelve =
    kettle ∷ kettle ∷ kettle ∷ kettle ∷ kettle ∷ kettle ∷ kettle ∷ kettle ∷ kettle ∷ kettle ∷ kettle
    ∷ kettle ∷ []

-- Ten entries are a full page.
two_pages :
    paginate 11 ("a" ∷ "b" ∷ "c" ∷ "d" ∷ "e" ∷ "f" ∷ "g" ∷ "h" ∷ "i" ∷ "j" ∷ "k" ∷ []) 0 [] [] 40
    ≡ (0 ∷ 1 ∷ 2 ∷ 3 ∷ 4 ∷ 5 ∷ 6 ∷ 7 ∷ 8 ∷ 9 ∷ []) ∷ (10 ∷ []) ∷ []
unfolding paginate utf16_units
two_pages = refl

narrow : (x : Float64) → utf16_units (sample_env.format_price x) ≤ 320
narrow x = unfold utf16_units in omega arith

build_my_list_page-shows_example :
    (parts : List (List Listed)) × (joined sample_env parts ≡ twelve)
    × AllShown sample_env twelve (length parts) 1 0 parts
    × ((k : ℕ) × Nearest (length parts) 7 k
        × (build_my_list_page sample_env twelve 7 ≡ build_my_list_page sample_env twelve k))
build_my_list_page-shows_example =
    build_my_list_page-shows sample_env narrow twelve (omega arith) (omega arith) 7

-- The client.

abbrev lookup_with : String → LookupResult
lookup_with status = record {
  status = status;
  name = "Kettle";
  price = price 500;
  url = "https://www.wildberries.ru/catalog/1/detail.aspx";
  error = "";
}

-- The third answer is final.
abbrev exchange_at : ℕ → Exchange LookupResult
exchange_at i = record {
  marshals = true;
  builds = true;
  response = some (record {
    status = 200;
    error = "";
    decoded = some (lookup_with (if ltb 1 i then "done" else "pending"));
  });
}

third_poll : (poll_lookup exchange_at "9" 45 0).requests ≡ 3
unfolding poll_lookup perform
third_poll = refl

poll_lookup-Stopped_example : Stopped exchange_at "9" 45 0 (poll_lookup exchange_at "9" 45 0)
poll_lookup-Stopped_example = poll_lookup-Stopped exchange_at "9" 45 0

-- The dialog.

abbrev gateway : Gateway
gateway = record {
  list_subscriptions = λ chat. some twelve;
  create_subscription = λ r. true;
  edit_subscription = λ chat id low high. true;
  pause_subscription = λ chat id. true;
  resume_subscription = λ chat id. true;
  delete_subscription = λ chat id. true;
  force_check = λ chat id. true;
  get_history = λ chat id. some [];
}

abbrev formats : Formats
formats = record {
  parse_float = λ s.
      if str_eq s "200"
      then some (price 200)
      else if str_eq s "900"
      then some (price 900)
      else none;
  quoted = λ s. s;
  nine_tenths = λ x. x;
  eleven_tenths = λ x. x;
  clock = λ t. "";
}

price_with_gap : parse_price formats.parse_float "2 00" ≡ some (price 200)
unfolding parse_price
price_with_gap = refl

abbrev link : String
link = "https://www.wildberries.ru/catalog/1/detail.aspx"

abbrev asked : BotState
asked = handle_message sample_env formats gateway 77 link new_bot

abbrev found : BotState
found =
    release_lookup 77 "bot-1"
      (finish_lookup sample_env formats (polled "9" (lookup_with "done")) false 0 77 "bot-1" asked)

abbrev subscribed : BotState
subscribed =
    handle_message sample_env formats gateway 77 "900"
      (handle_message sample_env formats gateway 77 "200" found)

Reach-IsSound_example : IsSound subscribed
Reach-IsSound_example = Reach-IsSound sample_env formats (
    messaged gateway 77 "900" (
      messaged gateway 77 "200" (
        released 77 "bot-1" (
          finished (polled "9" (lookup_with "done")) false 0 77 "bot-1"
            (messaged gateway 77 link started)))))

-- All attempts fail: there are four.
four_attempts : send_attempts (λ i. false) (λ i. true) 0 send_delays ≡ 4
unfolding send_attempts
four_attempts = refl
