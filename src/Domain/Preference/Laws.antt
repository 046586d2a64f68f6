-- ===== src/Domain/Preference/Laws.antt =====
-- internal/domain/preference.go: what Blocks lets pass.
use startlink.Base.{false, none, some, ◌≡◌, refl, ◌↔◌, arith, ◌⊎◌, inl}
use startlink.Domain.Channel.{ChannelType}
use startlink.Domain.Priority.{Priority}
use startlink.Domain.Text.{Text}
use startlink.Domain.Preference.{UserPreference, is_channel_opted_out, is_topic_opted_out, blocks}

-- A message passes exactly if it is transactional, or the user has opted out neither of marketing,
-- nor of its channel, nor of its topic.
pub blocks-none_iff :
    (p : UserPreference) (ch : ChannelType) (t : Text) (priority : Priority)
    → (blocks (some p) ch t priority ≡ none) ↔ (
        (priority ≡ Priority.high)
        ⊎ ((p.marketing_opt_out ≡ false)
            × (is_channel_opted_out p ch ≡ false)
            × (is_topic_opted_out p t ≡ false)))
unfolding blocks
blocks-none_iff p ch t Priority.high = (λ h. inl refl, λ h. refl)
blocks-none_iff p ch t Priority.unset = (λ h. ground arith, λ h. ground arith)
blocks-none_iff p ch t Priority.normal = (λ h. ground arith, λ h. ground arith)
blocks-none_iff p ch t (Priority.unknown s) = (λ h. ground arith, λ h. ground arith)
