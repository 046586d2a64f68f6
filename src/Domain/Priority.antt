-- ===== src/Domain/Priority.antt =====
-- internal/domain/priority.go: transactional (high) and marketing (normal) messages.
use startlink.Base.{String, Bool, true, false, not, ◌&&◌, List, [], ◌∷◌, if◌then◌else◌, str_eq}

-- `unset` is the empty string, `unknown` any other string than the two constants.
pub data Priority : Type 0 where
  unset high normal : Priority
  unknown : String → Priority

unfoldable pub valid : Priority → Bool
valid (Priority.unknown _) = false
valid _ = true

unfoldable pub normalize : Priority → Priority
normalize Priority.unset = Priority.normal
normalize p = p

-- `p == PriorityHigh`
unfoldable pub eq_high : Priority → Bool
eq_high Priority.high = true
eq_high _ = false

unfoldable pub is_high : Priority → Bool
unfolding eq_high normalize
is_high p = eq_high (normalize p)

-- The loop over the high scenes.
unfoldable pub scene_priority : String → List String → Priority
scene_priority biz_scene [] = Priority.normal
scene_priority biz_scene (s ∷ scenes) =
    let rest = scene_priority biz_scene scenes in
    if not (str_eq s "") && str_eq s biz_scene then Priority.high else rest

unfoldable pub resolve_priority : Priority → String → List String → Priority
unfolding scene_priority
resolve_priority Priority.high biz_scene scenes = Priority.high
resolve_priority Priority.normal biz_scene scenes = Priority.normal
resolve_priority _ biz_scene scenes = scene_priority biz_scene scenes
