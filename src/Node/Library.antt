-- ===== src/Node/Library.antt =====
-- What urg_node/src/uam/uam_driver_ros.cpp takes from outside: the arithmetic and the times of the platform
-- of `Urg.Library`, and what the node does with them besides.
use urg_node.Prelude.{ℕ, Bool}
use urg_node.Protocol.Area.{EyrAreaType, YrCommandReply}
use urg_node.Dispatch.{Event}
use urg_node.Driver.{UamDriver}
use urg_node.Urg.Library.{Platform}

pub record NodePlatform : Type 1 where
  pub base : Platform
  -- `static_cast<double>` of a float.
  pub widen : base.float.Real → base.double.Real
  -- `std::isnan`, and `<=`, which is false of nan.
  pub is_nan : base.float.Real → Bool
  pub at_most : base.float.Real → base.float.Real → Bool
  pub sin : base.float.Real → base.float.Real
  pub cos : base.float.Real → base.float.Real
  -- `<` of `ros::Time`, the time 0 and the test for it.
  pub time_less : base.ros.Time → base.ros.Time → Bool
  pub zero_time : base.ros.Time
  pub is_zero : base.ros.Time → Bool
  -- `!=` of doubles.
  -- What the memory of the last reply is as one of YR, when the reply that was put there is of another type:
  -- by the number and the type of the area that was asked for, and the driver.
  pub memory_as_yr : ℕ → EyrAreaType → UamDriver → Event → YrCommandReply
  pub differs : base.double.Real → base.double.Real → Bool
