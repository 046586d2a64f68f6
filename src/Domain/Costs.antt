-- ===== src/Domain/Costs.antt =====
-- internal/domain/channel_strategy.go: SortChannelsByCost and MatchRouteRules.
pub mod Order
use startlink.Base.{
  ℕ, zero, suc, ◌+◌, String, Bool, true, false, not, ◌&&◌, ◌||◌, List, [], ◌∷◌, Option, none, some,
  ◌==◌, ltb, if◌then◌else◌, str_eq, length, leb, map,
}
use startlink.Domain.Channel.{ChannelType, inbox, app_push, email, wecom, dingtalk, sms}

-- A map from channels to costs: the first entry of a channel counts.
unfoldable pub cost_in : List (ChannelType × ℕ) → ChannelType → Option ℕ
cost_in [] ch = none
cost_in ((c, n) ∷ costs) ch = let rest = cost_in costs ch in if str_eq c ch then some n else rest

-- DefaultChannelCosts
abbrev pub default_channel_costs : List (ChannelType × ℕ)
default_channel_costs =
    (inbox, 1) ∷ (app_push, 2) ∷ (email, 3) ∷ (wecom, 4) ∷ (dingtalk, 4) ∷ (sms, 10) ∷ []

unfoldable pub or_else : Option ℕ → ℕ → ℕ
or_else none n = n
or_else (some m) n = m

unfoldable pub cost_of : List (ChannelType × ℕ) → ChannelType → ℕ
unfolding cost_in or_else
cost_of costs ch = or_else (cost_in costs ch) (or_else (cost_in default_channel_costs ch) 100)

pub record Item : Type 0 where
  pub ch : ChannelType
  pub cost : ℕ
  pub index : ℕ

unfoldable pub items_from : ℕ → List (ChannelType × ℕ) → List ChannelType → List Item
unfolding cost_of
items_from i costs [] = []
items_from i costs (c ∷ chs) =
    record { ch = c; cost = cost_of costs c; index = i } ∷ items_from (suc i) costs chs

-- `items[i].cost < items[best].cost || ... && items[i].index < items[best].index`
unfoldable pub better : Item → Item → Bool
better a b = ltb a.cost b.cost || a.cost == b.cost && ltb a.index b.index

-- The scan for the best of the items that are not used yet: it, and the others in their order.
unfoldable pub pick : Item → List Item → Item × List Item
unfolding better
pick best [] = (best, [])
pick best (x ∷ xs) =
    let step : Item × Item = if better x best then (x, best) else (best, x) in
    let rest = pick step.0 xs in (rest.0, step.1 ∷ rest.1)

-- The outer loop, a round for each item.
unfoldable pub select : ℕ → List Item → List Item
unfolding pick
select zero items = []
select (suc n) [] = []
select (suc n) (x ∷ xs) = let r = pick x xs in r.0 ∷ select n r.1

unfoldable pub sort_channels_by_cost : List ChannelType → List (ChannelType × ℕ) → List ChannelType
unfolding select items_from
sort_channels_by_cost chs costs =
    if leb (length chs) 1
    then chs
    else map (λ item. item.ch) (select (length chs) (items_from 0 costs chs))

pub record RouteCondition : Type 0 where
  pub var : String
  pub op : String
  pub value : String

pub record ChannelRouteRule : Type 0 where
  pub when : Option RouteCondition
  pub channels : List ChannelType

unfoldable pub or_channels : List ChannelType → List ChannelType → List ChannelType
or_channels [] fallback = fallback
or_channels (c ∷ cs) fallback = c ∷ cs

-- What a rule says at its turn: channels to return, or the default from then on.
unfoldable pub rule_turn :
    (RouteCondition → Bool)
    → Option RouteCondition
    → List ChannelType
    → List ChannelType
    → Option (List ChannelType) × List ChannelType
unfolding or_channels
rule_turn holds none channels default_chs = (none, or_channels channels default_chs)
rule_turn holds (some c) [] default_chs = (none, default_chs)
rule_turn holds (some c) (ch ∷ chs) default_chs =
    if holds c then (some (ch ∷ chs), default_chs) else (none, default_chs)

unfoldable pub or_rest : Option (List ChannelType) → List ChannelType → List ChannelType
or_rest none rest = rest
or_rest (some chs) rest = chs

unfoldable pub route_from :
    (RouteCondition → Bool)
    → List ChannelRouteRule
    → List ChannelType
    → List ChannelType
    → List ChannelType
unfolding rule_turn or_rest or_channels
route_from holds [] default_chs fallback = or_channels default_chs fallback
route_from holds (r ∷ rules) default_chs fallback =
    let turn = rule_turn holds r.when r.channels default_chs in
    let rest = route_from holds rules turn.1 fallback in or_rest turn.0 rest

-- MatchRouteRules; `holds` is the evaluation of a condition over the message's variables.
unfoldable pub match_route_rules :
    (RouteCondition → Bool) → List ChannelRouteRule → List ChannelType → List ChannelType
unfolding route_from
match_route_rules holds [] fallback = fallback
match_route_rules holds (r ∷ rules) fallback = route_from holds (r ∷ rules) [] fallback
