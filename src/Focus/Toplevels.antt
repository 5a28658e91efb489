-- ===== src/Focus/Toplevels.antt =====
-- crates/heimwatch-collector/src/focus/linux/wlrlib.rs: the toplevels that the compositor reports, and
-- which of its events say that the focus changes.
use heimwatch.Prelude.{
  ℕ, ◌+◌, ◌*◌, ◌≡◌, refl, Bool, false, ◌||◌, List, [], ◌∷◌, ◌++◌, Option, none, some, Bytes, ◌==◌,
  if◌then◌else◌,
}

pub record ToplevelInfo : Type 0 where
  pub app_id : Option Bytes
  pub is_activated : Bool

-- `HashMap<ObjectId, ToplevelInfo>`, asked only by key: the latest entry of a key counts.
abbrev pub Toplevels : Type 0
Toplevels = List (ℕ × ToplevelInfo)

abbrev pub get : ℕ → Toplevels → Option ToplevelInfo
get id [] = none
get id ((j, info) ∷ l) = let rest = get id l in if j == id then some info else rest

abbrev pub remove : ℕ → Toplevels → Toplevels
remove id [] = []
remove id ((j, info) ∷ l) = let rest = remove id l in if j == id then rest else (j, info) ∷ rest

-- The events of a toplevel that are read, each with the object's id, and a new toplevel.
pub data HandleEvent : Type 0 where
  toplevel : HandleEvent
  app_id : Bytes → HandleEvent
  state : Bytes → HandleEvent
  done : HandleEvent
  closed : HandleEvent

-- The words of four bytes, the last first, without the bytes that are left over; one is `Activated`, 2.
unfoldable pub any_activated : Bytes → Bool
any_activated (a ∷ b ∷ c ∷ d ∷ rest) =
    (a + b * 256 + c * 65536 + d * 16777216 == 2) || any_activated rest
any_activated _ = false

-- `if let Some(info) = state.toplevels.get_mut(&id)`
abbrev pub update_info : ℕ → (ToplevelInfo → ToplevelInfo) → Toplevels → Toplevels
update_info id change toplevels = elim (get id toplevels) [
  | none ↦ toplevels
  | some info ↦ (id, change info) ∷ toplevels
]

-- The toplevels after an event, and the change of focus that it sends.
unfoldable pub handle_toplevel : ℕ → HandleEvent → Toplevels → Toplevels × List (Option Bytes)
unfolding any_activated
handle_toplevel id HandleEvent.toplevel toplevels =
    ((id, record { app_id = none; is_activated = false }) ∷ toplevels, [])
handle_toplevel id (HandleEvent.app_id name) toplevels =
    (update_info id (λ info. record info { app_id = some name }) toplevels, [])
handle_toplevel id (HandleEvent.state bytes) toplevels =
    (update_info id (λ info. record info { is_activated = any_activated bytes }) toplevels, [])
handle_toplevel id HandleEvent.done toplevels = (
  toplevels,
  elim (get id toplevels) [
    | none ↦ []
    | some info ↦ if info.is_activated then info.app_id ∷ [] else []
  ],
)
handle_toplevel id HandleEvent.closed toplevels = (remove id toplevels, [])

-- The changes of focus that a sequence of events sends.
abbrev pub focus_changes : Toplevels → List (ℕ × HandleEvent) → List (Option Bytes)
focus_changes toplevels [] = []
focus_changes toplevels ((id, e) ∷ l) =
    let (next, sent) = handle_toplevel id e toplevels in sent ++ focus_changes next l

activated_window :
    focus_changes [] (
      (3, HandleEvent.toplevel)
      ∷ (3, HandleEvent.app_id (7 ∷ []))
      ∷ (3, HandleEvent.state (2 ∷ 0 ∷ 0 ∷ 0 ∷ []))
      ∷ (3, HandleEvent.done)
      ∷ [])
    ≡ some (7 ∷ []) ∷ []
unfolding handle_toplevel
activated_window = refl
