-- ===== src/App/Listing/Tabs.antt =====
-- The tabs of the two lists: `fetchMarkets` and `fetchFromSupabase` of app/app/duels/page.tsx, and
-- `fetchDuels` of app/app/compare/page.tsx.
use duel_protocol.Prelude.{
  ℕ, String, Option, none, some, Bool, true, false, Bool-cases, inl, inr, List, [], ◌∷◌, All,
  if◌then◌else◌,
}
use duel_protocol.App.{MarketPhase, active, twap, resolved}
use duel_protocol.App.Listing.{MarketEntry, MarketData, CompareDuelData, fetch_from_chain}
use duel_protocol.App.Listing.Laws.{IsBefore, IsOrdered}

pub data Filter : Type 0 where
  all_tab active_tab resolved_tab : Filter

unfoldable pub keeps : Filter → MarketPhase → Bool
keeps all_tab p = true
keeps active_tab active = true
keeps active_tab twap = true
keeps active_tab resolved = false
keeps resolved_tab resolved = true
keeps resolved_tab _ = false

unfoldable pub filter_by {ℓ} : {A : Type ℓ} → (A → MarketPhase) → Filter → List A → List A
filter_by status f [] = []
filter_by status f (x ∷ xs) =
    let rest = filter_by status f xs in if keeps f (status x) then x ∷ rest else rest

-- The statuses that the query asks for, if it asks.
unfoldable pub asked_statuses : Filter → Option (List String)
asked_statuses all_tab = none
asked_statuses active_tab = some ("active" ∷ "twap" ∷ [])
asked_statuses resolved_tab = some ("resolved" ∷ [])

-- `run` is `none` for an error, an exception or no data, and `has_supabase` whether the client is
-- configured.
unfoldable pub fetch_from_supabase :
    Bool → (Option (List String) → Option (List MarketData)) → Filter → Option (List MarketData)
unfolding asked_statuses
fetch_from_supabase has_supabase run f = if has_supabase then run (asked_statuses f) else none

-- The entries on the page, and whether it loads.
pub record Shown {ℓ} (A : Type ℓ) : Type ℓ where
  pub entries : List A
  pub loading : Bool

-- `from_chain` is `none` when the fetch throws, which keeps the entries.
unfoldable pub fetch_markets :
    Filter
    → Option (List MarketData)
    → ℕ
    → Option (List MarketEntry)
    → Shown MarketData
    → Shown MarketData
fetch_markets f (some rows) now_ms from_chain page = record { entries = rows; loading = false }
fetch_markets f none now_ms none page = record page { loading = false }
fetch_markets f none now_ms (some ms) page = record {
  entries = filter_by (λ m. m.status) f (fetch_from_chain now_ms ms);
  loading = false;
}

unfoldable pub fetch_duels :
    Filter → Option (List CompareDuelData) → Shown CompareDuelData → Shown CompareDuelData
fetch_duels f none page = record page { loading = false }
fetch_duels f (some all) page = record {
  entries = filter_by (λ d. d.status) f all;
  loading = false;
}

-- A tab keeps the order.
module _ {ℓ} {A : Type ℓ} (status : A → MarketPhase) (deadline : A → ℕ) (f : Filter) where
  filter_by-All :
      (a : A) (l : List A)
      → All (IsBefore status deadline a) l
      → All (IsBefore status deadline a) (filter_by status f l)
  unfolding filter_by
  filter_by-All a [] h = tt
  filter_by-All a (x ∷ xs) (h, hs) = elim (Bool-cases (keeps f (status x))) [
    | inl kept ↦ rw kept (h, filter_by-All a xs hs)
    | inr left ↦ rw left (filter_by-All a xs hs)
  ]

  -- The entries of a tab, in the order of the whole list, are ordered.
  pub filter_by-IsOrdered :
      (l : List A) → IsOrdered status deadline l → IsOrdered status deadline (filter_by status f l)
  unfolding filter_by IsOrdered
  filter_by-IsOrdered [] h = tt
  filter_by-IsOrdered (x ∷ xs) (h, hs) = elim (Bool-cases (keeps f (status x))) [
    | inl kept ↦ rw kept (filter_by-All x xs h, filter_by-IsOrdered xs hs)
    | inr left ↦ rw left (filter_by-IsOrdered xs hs)
  ]
