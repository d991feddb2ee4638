-- ===== src/Entities/Matches.antt =====
-- How publishers and subscriptions count their matches: the listeners of
-- rmw_opendds_cpp/include/rmw_opendds_cpp/DDSPublisher.hpp and DDSSubscriber.hpp, and the entry
-- points of src/rmw_publisher.cpp and src/rmw_subscription.cpp that ask the object.
use rmw_opendds.Prelude.{ℕ, ◌≡◌, refl, Option, none, some, List, [], ◌∷◌}
use rmw_opendds.Ret.{RmwRet}
use rmw_opendds.Qos.{RmwQos}
use rmw_opendds.Handles
use rmw_opendds.Handles.{RmwHandle}
use rmw_opendds.Entities.{Dds, Entity}
use rmw_opendds.Entities.Calls.{count_matched, get_actual_qos}

-- A listener is its address and `current_count_`, a `std::size_t`; the argument is `current_count`
-- of the status, converted to it.
unfoldable pub on_publication_matched : ℕ → ℕ × ℕ → ℕ × ℕ
on_publication_matched current_count (address, old) = (address, current_count)

unfoldable pub on_subscription_matched : ℕ → ℕ × ℕ → ℕ × ℕ
on_subscription_matched current_count (address, old) = (address, current_count)

-- Nothing of the publisher is tested but its pointer.
unfoldable pub rmw_publisher_assert_liveliness : {D : Type 0} → Option (ℕ × RmwHandle D) → RmwRet
rmw_publisher_assert_liveliness none = RmwRet.invalid_argument
rmw_publisher_assert_liveliness (some publisher) = RmwRet.ok

module _ {T P E C Handle X W : Type 0} (dds : Dds T P E C Handle W) where
  unfoldable pub rmw_subscription_count_matched_publishers :
      Option (ℕ × RmwHandle (Entity T P E X)) → Option ℕ → RmwRet × Option ℕ
  rmw_subscription_count_matched_publishers subscription publisher_count =
      count_matched dds subscription publisher_count

  unfoldable pub rmw_subscription_get_actual_qos :
      Option (ℕ × RmwHandle (Entity T P E X)) → Option RmwQos → W → RmwRet × Option RmwQos
  rmw_subscription_get_actual_qos subscription qos world = get_actual_qos dds subscription qos world

-- The entity whose listener DDS has told of the counts, the latest first.
abbrev pub told : {T P E X : Type 0} → List ℕ → Entity T P E X → Entity T P E X
told [] entity = entity
told (n ∷ before) entity = record entity {
  listener = on_subscription_matched n (told before entity).listener;
}

-- A subscription answers the count that DDS has reported last, through whatever handle of the
-- package leads to it.
pub count_matched-told :
    {T P E C Handle X W : Type 0} (dds : Dds T P E C Handle W) (n : ℕ) (before : List ℕ)
    (count a ad : ℕ) (entity : Entity T P E X) (subscription : RmwHandle (Entity T P E X))
    → Handles.from (some (a, subscription)) ≡ some (ad, told (n ∷ before) entity)
    → rmw_subscription_count_matched_publishers dds (some (a, subscription)) (some count)
      ≡ (RmwRet.ok, some n)
unfolding rmw_subscription_count_matched_publishers on_subscription_matched count_matched
count_matched-told dds n before count a ad entity subscription valid =
    rw (count_matched, valid) refl
