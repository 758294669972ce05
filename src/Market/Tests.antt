-- ===== src/Market/Tests.antt =====
-- Runs of the market rules on whole prices, and their theorems at concrete inputs.
mod State
mod Engine
use atabak_gold.Base.{
  ℕ, ◌≡◌, ◌⊎◌, ◌↔◌, refl, Bool, true, false, not, ◌&&◌, ◌*◌, Option, none, some, List, [], ◌∷◌, map,
  String, Memᴰ, arith, ltb,
}
use atabak_gold.Base.Samples.{whole}
use atabak_gold.Market.Types.{
  SymbolDefinition, NormalizedPrice, gold, PriceUnit, SourceUnit, same_day, previous_day,
  out_of_range, excessive_change,
}
use atabak_gold.Market.Change.{
  calculate_price_change, calculate_price_change-known, no_change, HasChange,
}
use atabak_gold.Base.Dict.{lookup, insert}
use atabak_gold.Base.Sets.{has, set_add}
use atabak_gold.Market.Amount.{number, parse_amount}
use atabak_gold.Market.Normalizer.Defs.{
  RawPriceEntry, Settings, registry_map, normalize, normalize_entries, outcome_of, rejection,
  source_unit_of, to_canonical_unit,
}
use atabak_gold.Market.Normalizer.Laws.{Accepts, Distinct}
use atabak_gold.Market.Normalizer.Entries.{Answers, normalize-Accepts, normalize-Answers}
use atabak_gold.Market.Sanity.Defs.{Baseline, evaluate, build_baseline}
use atabak_gold.Market.Sanity.Laws.{
  InRange, NearBaseline, has_positive, evaluate-accepted_iff, evaluate-reason, build_baseline_iff,
}

abbrev gold_18 : SymbolDefinition ℕ
gold_18 = record {
  symbol = "gold_18";
  label = "18k";
  section = gold;
  order = 1;
  required = true;
  unit = PriceUnit.rial;
  min_price = some 10;
  max_price = some 100000;
  max_change_percent = some 10;
  max_absolute_change = none;
}

abbrev quoted : ℕ → NormalizedPrice ℕ
quoted price = record {
  symbol = "gold_18";
  price = price;
  unit = PriceUnit.rial;
  source_unit = SourceUnit.rial;
  source_timestamp = none;
  received_at = "t0";
  source = "api";
}

abbrev today : Baseline ℕ
today = record { price = 100; source = same_day }

abbrev yesterday : Baseline ℕ
yesterday = record { price = 100; source = previous_day }

abbrev judge : ℕ → Baseline ℕ → Bool
judge price b = (evaluate 2 (quoted price) gold_18 (some b) "t1").accepted

evaluate-accepted_iff_example :
    (judge 200 today ≡ true) ↔ InRange gold_18 200 × NearBaseline 2 gold_18 200 (some today)
evaluate-accepted_iff_example = evaluate-accepted_iff 2 (quoted 200) gold_18 (some today) "t1"

twice_widens : (limit x : ℕ) → ltb limit x ≡ false → ltb (limit * 2) x ≡ false
twice_widens limit x h = ground arith

accepts_today : judge 100 today ≡ true
unfolding evaluate whole
accepts_today = refl

abbrev zero_price : Option ℕ
zero_price = some 0

abbrev old_price : Option ℕ
old_price = some 100

abbrev price_now : ℕ
price_now = 110

abbrev settings : Settings ℕ
settings = record {
  symbol_units = [];
  source_unit = SourceUnit.toman;
  number_of = λ text. 0;
  source_timestamp = none;
  source = "api";
  received_at = "t0";
  now = "t1";
}

abbrev entry : String → ℕ → RawPriceEntry ℕ
entry symbol price = record { symbol = symbol; name = none; raw_price = number price }

abbrev registry : List (SymbolDefinition ℕ)
registry = gold_18 ∷ []

-- A price, a duplicate and an unknown symbol.
abbrev payload : List (RawPriceEntry ℕ)
payload = entry "gold_18" 90 ∷ entry "gold_18" 91 ∷ entry "mystery" 5 ∷ []

normalize_tests :
    (map (λ p. p.price) (normalize settings registry payload).normalized ≡ 900 ∷ [])
    × (map (λ r. r.symbol) (normalize settings registry payload).rejected ≡ "mystery" ∷ [])
unfolding normalize normalize_entries outcome_of rejection source_unit_of to_canonical_unit
    registry_map lookup insert has set_add parse_amount whole
normalize_tests = (refl, refl)

normalize-Accepts_example :
    Distinct (normalize settings registry payload).normalized
    × ((p : NormalizedPrice ℕ)
        → Memᴰ p (normalize settings registry payload).normalized
        → (e : RawPriceEntry ℕ) × Memᴰ e payload × Accepts settings (registry_map registry []) e p)
normalize-Accepts_example = normalize-Accepts settings registry payload

normalize-Answers_example : Answers "mystery" (normalize settings registry payload)
normalize-Answers_example =
    normalize-Answers settings registry payload (entry "mystery" 5)
      (Memᴰ.tail (Memᴰ.tail (Memᴰ.head refl)))
