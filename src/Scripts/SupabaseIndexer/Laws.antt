-- ===== src/Scripts/SupabaseIndexer/Laws.antt =====
-- An event without a field that its handler reads ends the backfill.
use duel_protocol.Prelude.{
  ℕ, ◌≡◌, refl, sym, ◌∙◌, String, Bool, true, false, inl, inr, Option, none, Option-cases, List, [],
  ◌∷◌, ◌++◌,
}
use duel_protocol.Scripts.SupabaseIndexer.{
  Store, Database, Event, write_row, handle_event, handle_events,
}
use duel_protocol.Scripts.SupabaseIndexer.Synced.{Market}
use duel_protocol.Scripts.SupabaseIndexer.Rows.{
  Fields, field, key_of, digits_of, bought_row, sold_row, resolved_row,
}

-- A purchase, sale or resolution as the program emits it today, without the fields of the first
-- version.
pub data IsStale : Event → Type 0 where
  purchase :
      (f : Fields)
      → field "solAmount" f ≡ none
      → IsStale (record { name = "TokensBought"; fields = f })
  sale :
      (f : Fields)
      → field "solReceived" f ≡ none
      → IsStale (record { name = "TokensSold"; fields = f })
  resolution :
      (f : Fields)
      → field "transferAmount" f ≡ none
      → IsStale (record { name = "MarketResolved"; fields = f })

digits_of-none : (name : String) (f : Fields) → field name f ≡ none → digits_of name f ≡ none
unfolding digits_of
digits_of-none name f missing = rw missing refl

bought_row-none : (f : Fields) (slot : ℕ) → field "solAmount" f ≡ none → bought_row f slot ≡ none
unfolding bought_row
bought_row-none f slot missing = elim (Option-cases (key_of "market" f)) [
  | inl lost ↦ rw lost refl
  | inr (market, found) ↦ elim (Option-cases (key_of "buyer" f)) [
    | inl lost ↦ rw (found, lost) refl
    | inr (buyer, found') ↦ rw (found, found', digits_of-none "solAmount" f missing) refl
  ]
]

sold_row-none : (f : Fields) (slot : ℕ) → field "solReceived" f ≡ none → sold_row f slot ≡ none
unfolding sold_row
sold_row-none f slot missing = elim (Option-cases (key_of "market" f)) [
  | inl lost ↦ rw lost refl
  | inr (market, found) ↦ elim (Option-cases (key_of "seller" f)) [
    | inl lost ↦ rw (found, lost) refl
    | inr (seller, found') ↦ rw (found, found', digits_of-none "solReceived" f missing) refl
  ]
]

resolved_row-none : (f : Fields) → field "transferAmount" f ≡ none → resolved_row f ≡ none
unfolding resolved_row
resolved_row-none f missing = elim (Option-cases (key_of "market" f)) [
  | inl lost ↦ rw lost refl
  | inr (market, found) ↦ elim (Option-cases (digits_of "finalTwapA" f)) [
    | inl lost ↦ rw (found, lost) refl
    | inr (a, found') ↦ elim (Option-cases (digits_of "finalTwapB" f)) [
      | inl lost ↦ rw (found, found', lost) refl
      | inr (b, found'') ↦
          rw (found, found', found'', digits_of-none "transferAmount" f missing) refl
    ]
  ]
]

module _ (db : Database) (fetch : String → Option Market) (now_ms : ℕ) where
  handle_event_stale :
      (e : Event) (slot : ℕ) (s : Store)
      → IsStale e
      → handle_event db fetch now_ms e slot s ≡ (s, false)
  unfolding handle_event write_row
  handle_event_stale e slot s (purchase f missing) = rw (bought_row-none f slot missing) refl
  handle_event_stale e slot s (sale f missing) = rw (sold_row-none f slot missing) refl
  handle_event_stale e slot s (resolution f missing) = rw (resolved_row-none f missing) refl

  handle_events_stopped :
      (es : List Event) (slot : ℕ) (s : Store)
      → handle_events db fetch now_ms es slot (s, false) ≡ (s, false)
  unfolding handle_events
  handle_events_stopped [] slot s = refl
  handle_events_stopped (e ∷ es) slot s = refl

  handle_events-append :
      (xs ys : List Event) (slot : ℕ) (p : Store × Bool)
      → handle_events db fetch now_ms (xs ++ ys) slot p
        ≡ handle_events db fetch now_ms ys slot (handle_events db fetch now_ms xs slot p)
  unfolding handle_events
  handle_events-append [] ys slot p = refl
  handle_events-append (x ∷ xs) ys slot (s, false) = sym (handle_events_stopped ys slot s)
  handle_events-append (x ∷ xs) ys slot (s, true) =
      handle_events-append xs ys slot (handle_event db fetch now_ms x slot s)

  stops_at :
      (e : Event) (after : List Event) (slot : ℕ) (p : Store × Bool)
      → IsStale e
      → handle_events db fetch now_ms (e ∷ after) slot p ≡ (p.0, false)
  unfolding handle_events
  stops_at e after slot (s, false) stale = refl
  stops_at e after slot (s, true) stale =
      rw (handle_event_stale e slot s stale) (handle_events_stopped after slot s)

  -- For every database and chain, a purchase without solAmount, a sale without solReceived or a
  -- resolution without transferAmount ends the handling of the events: nothing is written for it
  -- or for those after it, and what those before it wrote stays.
  pub handle_events_stale :
      (before after : List Event) (e : Event) (slot : ℕ) (s : Store)
      → IsStale e
      → handle_events db fetch now_ms (before ++ e ∷ after) slot (s, true)
        ≡ ((handle_events db fetch now_ms before slot (s, true)).0, false)
  handle_events_stale before after e slot s stale =
      handle_events-append before (e ∷ after) slot (s, true)
      ∙ stops_at e after slot (handle_events db fetch now_ms before slot (s, true)) stale
