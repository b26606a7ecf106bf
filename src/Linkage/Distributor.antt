-- ===== src/Linkage/Distributor.antt =====
-- meio/src/linkage/distributor.rs.
use meio.Prelude.{
  ℕ, ◌≡◌, refl, Bool, true, false, Option, List, [], ◌∷◌, ◌++◌, arith, ok, err, All, length,
  ℕ_discrete,
}
use meio.Prelude.Map
use meio.Ids.{Ident}
use meio.Handlers.{unsent, Outcome}
use meio.Linkage.{Address}

-- `HashMap<Id, Box<dyn ActionRecipient<T>>>`.
pub record Distributor : Type 0 where
  pub recipients : List (Ident × Address)

unfoldable pub new : Distributor
new = record { recipients = [] }

unfoldable pub insert : Distributor → Address → Distributor
insert d recipient = record {
  recipients = Map.insert ℕ_discrete recipient.id recipient d.recipients;
}

unfoldable pub remove : Distributor → Ident → Distributor × Option Address
remove d id = (
  record { recipients = Map.remove ℕ_discrete id d.recipients },
  Map.lookup ℕ_discrete id d.recipients,
)

unfoldable pub len : Distributor → ℕ
len d = length d.recipients

unfoldable pub is_empty : Distributor → Bool
is_empty d = elim d.recipients [ [] ↦ true | x ∷ xs ↦ false ]

-- `map(act).find(is_err)`: an iterator is lazy, so a recipient acts only when `find` asks for it.
-- The result, and the recipients that acted, where `accepts` says which sends succeed.
unfoldable pub act_each : {E : Type 0} → (Address → Bool) → List Address → Outcome E × List Address
act_each accepts [] = (ok tt, [])
act_each {E} accepts (a ∷ as') =
    let rest : Outcome E × List Address = act_each accepts as' in
    elim (accepts a) [ true ↦ (rest.0, a ∷ rest.1) | false ↦ (err unsent, a ∷ []) ]

-- `act_all`, with the order in which the hash map lists its values.
unfoldable pub act_all :
    {E : Type 0}
    → (List Address → List Address)
    → (Address → Bool)
    → Distributor
    → Outcome E × List Address
unfolding act_each
act_all order accepts d = act_each accepts (order (Map.values d.recipients))

act_each-ok :
    {E : Type 0} (accepts : Address → Bool) (as' : List Address)
    → All (λ a. accepts a ≡ true) as'
    → act_each {E = E} accepts as' ≡ (ok tt, as')
unfolding act_each
act_each-ok accepts [] h = refl
act_each-ok {E} accepts (a ∷ as') h = ground (arith, act_each-ok {E = E} accepts as' h.1)

act_each-err :
    {E : Type 0} (accepts : Address → Bool) (before after : List Address) (a : Address)
    → All (λ b. accepts b ≡ true) before
    → accepts a ≡ false
    → act_each {E = E} accepts (before ++ a ∷ after) ≡ (err unsent, before ++ a ∷ [])
unfolding act_each
act_each-err accepts [] after a h e = ground arith
act_each-err {E} accepts (b ∷ before) after a h e =
    ground (arith, act_each-err {E = E} accepts before after a h.1 e)

-- If every recipient takes the action, each of those that the hash map lists gets it, in that order,
-- and the result is `Ok`.
pub act_all_reaches_every :
    {E : Type 0} (order : List Address → List Address) (accepts : Address → Bool) (d : Distributor)
    → All (λ a. accepts a ≡ true) (order (Map.values d.recipients))
    → act_all {E = E} order accepts d ≡ (ok tt, order (Map.values d.recipients))
unfolding act_all
act_all_reaches_every order accepts d h = act_each-ok accepts _ h

-- The first recipient that is gone ends the distribution: those that come after it in the order of
-- the hash map do not get the action, though they would take it.
pub act_all_stops_at_error :
    {E : Type 0} (order : List Address → List Address) (accepts : Address → Bool) (d : Distributor)
    (before after : List Address) (a : Address)
    → order (Map.values d.recipients) ≡ before ++ a ∷ after
    → All (λ b. accepts b ≡ true) before
    → accepts a ≡ false
    → act_all {E = E} order accepts d ≡ (err unsent, before ++ a ∷ [])
unfolding act_all
act_all_stops_at_error {E} order accepts d before after a split h e =
    rw (split, act_all) (act_each-err accepts before after a h e)
