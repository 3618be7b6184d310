-- ===== src/Client/Consensus/Laws.antt =====
-- `find_log` of primitives/consensus/src/lib.rs against the list of all logs of a digest.
use frontier.Base.{
  arith, ◌≤◌, ◌⊎◌, inl, inr, length, Option-cases, ◌≡◌, refl, Option, none, some, List, [], ◌∷◌,
  ◌++◌,
}
use frontier.Evm.Weight.{ok, err}
use frontier.Client.Consensus.{
  Decoder, Log, FindLogError, Found, map_log, note_log, and_then, find_log, find_log_from,
  find_kind,
}

abbrev pub to_list : {A : Type 0} → Option A → List A
to_list none = []
to_list (some a) = a ∷ []

-- The outcome for all the logs there are.
abbrev pub only : List Log → Found Log
only [] = err FindLogError.not_found
only (l ∷ []) = ok l
only (l ∷ l' ∷ ls) = err FindLogError.multiple_logs

-- The logs of one kind, in order.
abbrev pub logs_of : {Item L : Type 0} → (Item → Option L) → List Item → List L
logs_of try_to [] = []
logs_of try_to (item ∷ items) = to_list (try_to item) ++ logs_of try_to items

find_kind-second :
    {Item L : Type 0} (try_to : Item → Option L) (l : L) (items : List Item) {e : FindLogError}
    → find_kind try_to (some l) items ≡ err e
    → 1 ≤ length (logs_of try_to items)
unfolding find_kind
find_kind-second try_to l [] h = absurd (ground arith)
find_kind-second try_to l (item ∷ items) h = elim (Option-cases (try_to item)) [
  | inl missing ↦ rw missing (find_kind-second try_to l items (rw missing at h))
  | inr (l', e) ↦ rw e (omega arith)
]

-- The search for one kind of log fails with none of them or with two at least.
pub find_kind-fails :
    {Item L : Type 0} (try_to : Item → Option L) (items : List Item) {e : FindLogError}
    → find_kind try_to none items ≡ err e
    → (logs_of try_to items ≡ []) ⊎ (2 ≤ length (logs_of try_to items))
unfolding find_kind
find_kind-fails try_to [] h = inl refl
find_kind-fails try_to (item ∷ items) h = elim (Option-cases (try_to item)) [
  | inl missing ↦ rw missing (find_kind-fails try_to items (rw missing at h))
  | inr (l, e) ↦
      let more = find_kind-second try_to l items (rw e at h) in inr (rw e (omega (arith, more)))
]

module _ (d : Decoder) where
  open d use {Item, try_pre, try_post}

  -- Every log of a digest, in order.
  abbrev pub all_logs : List Item → List Log
  all_logs [] = []
  all_logs (item ∷ items) =
      to_list (map_log Log.pre (try_pre item))
      ++ (to_list (map_log Log.post (try_post item)) ++ all_logs items)

  step-only :
      (found pre post : Option Log) (rest : List Log) (k : Option Log → Found Log)
      → ((f : Option Log) → k f ≡ only (to_list f ++ rest))
      → and_then (note_log pre found) (λ f. and_then (note_log post f) k)
        ≡ only (to_list found ++ (to_list pre ++ (to_list post ++ rest)))
  step-only none none none rest k h = h none
  step-only none none (some q) rest k h = h (some q)
  step-only none (some p) none rest k h = h (some p)
  step-only none (some p) (some q) rest k h = refl
  step-only (some f) none none rest k h = h (some f)
  step-only (some f) none (some q) rest k h = refl
  step-only (some f) (some p) post rest k h = refl

  find_log_from-only :
      (found : Option Log) (items : List Item)
      → find_log_from d found items ≡ only (to_list found ++ all_logs items)
  unfolding find_log_from
  find_log_from-only none [] = refl
  find_log_from-only (some l) [] = refl
  find_log_from-only found (item ∷ items) =
      step-only found (map_log Log.pre (try_pre item)) (map_log Log.post (try_post item))
        (all_logs items) (λ f. find_log_from d f items) (λ f. find_log_from-only f items)

  -- `find_log` answers for the list of all the logs of a digest, those of each item in the order
  -- pre-runtime, consensus: the log if there is exactly one, `NotFound` if there is none, and
  -- `MultipleLogs` if there are more.
  pub find_log-only : (items : List Item) → find_log d items ≡ only (all_logs items)
  unfolding find_log
  find_log-only items = find_log_from-only none items
