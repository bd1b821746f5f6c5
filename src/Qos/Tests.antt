-- ===== src/Qos/Tests.antt =====
-- Examples of detail/qos.cpp.
use rmw_zenoh.Common.{true, [], some, ◌≡◌, refl, arith}
use rmw_zenoh.Qos.{Durability, History, QosProfile, ok, is_supported, best_available_qos}
use rmw_zenoh.Common.Text.{codes}
use rmw_zenoh.Qos.Compatible.{
  rmw_qos_profile_check_compatible, append_to_buffer, take, warning, compatibility_warning, Fits,
  check_compatible-Fits,
}
use rmw_zenoh.Qos.Adapt.{IsResolved}
use rmw_zenoh.Samples.{rmw, qos, open_qos}

abbrev unknown_history : QosProfile
unknown_history = record qos { history = History.unknown }

open_qos_accepted : (best_available_qos rmw open_qos).0 ≡ ok
unfolding best_available_qos is_supported
open_qos_accepted = refl

qos-IsResolved : IsResolved qos
qos-IsResolved = record {
  history = ground arith;
  depth = omega arith;
  reliability = ground arith;
  durability = ground arith;
  liveliness = ground arith;
}

abbrev late_publisher : QosProfile
late_publisher = record qos { durability = Durability.transient_local }

-- A buffer of eight bytes takes seven of the text and a null character.
check_compatible-Fits_example :
    Fits 8 (rmw_qos_profile_check_compatible true true late_publisher qos (some []) 8).reason
check_compatible-Fits_example = check_compatible-Fits true late_publisher qos [] 8 (omega arith)

warned_late : rmw_qos_profile_check_compatible true true late_publisher qos (some []) 8 ≡ record {
  ret = ok;
  compatibility = some compatibility_warning;
  reason = some (codes "WARNING");
}
unfolding rmw_qos_profile_check_compatible append_to_buffer take warning
warned_late = refl
