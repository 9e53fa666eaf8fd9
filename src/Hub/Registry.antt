-- ===== src/Hub/Registry.antt =====
-- `StreamHub` of dvrbridge/hub.py. The dictionary of streams is the list of its values, in order of
-- insertion; the key of each is its name.
use Prim.Native.String.{String}
use text.Mathlib.Text.{◌==◌ as str_eq}
use text.Mathlib.TextEquality.{eq_iff}
use dvrbridge.Base.{
  ℕ, Bool, true, false, ◌||◌, Option, none, some, List, [], ◌∷◌, ◌++◌, map, if◌then◌else◌, ◌≡◌,
  refl, sym, ap, ◌∙◌, arith, Bool-cases, inl, inr, ◌⊎◌,
}
use dvrbridge.Hub.{Stream}
use dvrbridge.Hub.Run.{touch, step, cancelled}

abbrev pub StreamHub : Type 0
StreamHub = List Stream

-- `name in self.streams`
unfoldable pub has : String → StreamHub → Bool
has name [] = false
has name (s ∷ rest) = str_eq s.name name || has name rest

-- `add`; `none` is the `ValueError` for a duplicate name
unfoldable pub add : Stream → StreamHub → Option StreamHub
unfolding has
add stream hub = if has stream.name hub then none else some (hub ++ stream ∷ [])

-- `get`; `none` is the `KeyError`
unfoldable pub get : String → StreamHub → Option Stream
get name [] = none
get name (s ∷ rest) = if str_eq s.name name then some s else get name rest

-- `start_always_on`
unfoldable pub start_always_on : ℕ → StreamHub → StreamHub
start_always_on now = map (λ s. if s.always_on then touch now s else s)

-- `stop`
unfoldable pub stop : StreamHub → StreamHub
stop = map (step cancelled)

get-append :
    (name : String) (hub : StreamHub) (stream : Stream)
    → has name hub ≡ false
    → get name (hub ++ stream ∷ []) ≡ (if str_eq stream.name name then some stream else none)
unfolding get has
get-append name [] stream h = refl
get-append name (s ∷ hub) stream h = ground (arith, get-append name hub stream)

get-append_has :
    (name : String) (hub : StreamHub) (stream : Stream)
    → has name hub ≡ true
    → get name (hub ++ stream ∷ []) ≡ get name hub
unfolding get has
get-append_has name [] stream h = cc h
get-append_has name (s ∷ hub) stream h = ground (arith, get-append_has name hub stream)

get-has : (name : String) (hub : StreamHub) → has name hub ≡ false → get name hub ≡ none
unfolding get has
get-has name [] h = refl
get-has name (s ∷ hub) h = ground (arith, get-has name hub)

-- `add` fails exactly for a name that is taken; otherwise the new stream is found under its name,
-- and what is found under every other name is what was found before.
pub add_lem :
    (stream : Stream) (hub : StreamHub) (name : String)
    → ((has stream.name hub ≡ true) × (add stream hub ≡ none))
      ⊎ ((has stream.name hub ≡ false)
          × ((hub' : StreamHub) × (add stream hub ≡ some hub')
              × (get name hub' ≡ (if str_eq stream.name name then some stream else get name hub))))
unfolding add
add_lem stream hub name = elim (Bool-cases (has stream.name hub)) [
  | inl e ↦ inl (e, rw e)
  | inr e ↦ inr (e, (hub ++ stream ∷ [], rw e, found e))
]
  where
    found :
        has stream.name hub ≡ false
        → get name (hub ++ stream ∷ [])
          ≡ (if str_eq stream.name name then some stream else get name hub)
    found e = elim (Bool-cases (has name hub)) [
      | inl h ↦ elim (Bool-cases (str_eq stream.name name)) [
        | inl t ↦ cc (sym e ∙ ap (λ n. has n hub) ((eq_iff stream.name name).0 t) ∙ h)
        | inr f ↦ rw f (get-append_has name hub stream h)
      ]
      | inr h ↦ get-append name hub stream h ∙ rw (get-has name hub h)
    ]
