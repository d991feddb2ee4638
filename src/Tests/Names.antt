-- ===== src/Tests/Names.antt =====
-- Names at concrete inputs.
use rmw_opendds.Prelude.{◌≡◌, ◌≢◌, refl, ◌↔◌, [], ◌++◌, ok, out_of_range, undefined, Returns, arith}
use rmw_opendds.Text.{codes, rfind}
use rmw_opendds.Names.Prefix.{strip_ros_prefix_if_exists}
use rmw_opendds.Names.Mangle.{
  create_topic_name, create_type_name, create_request_name, create_reply_name,
}
use rmw_opendds.Names.Demangle.{
  demangle_if_ros_topic, demangle_if_ros_type, demangle_service_from_topic,
  demangle_service_type_only, request_suffix, response_suffix,
}
use rmw_opendds.Names.Topics.{demangle-create_topic_name, strip-eq-demangle}
use rmw_opendds.Names.Demangle.Types.{demangle-create_type_name}
use rmw_opendds.Names.Demangle.Services.{
  demangle-create_request_name, demangle-create_reply_name, demangle_service-create_topic_name,
  demangle_service_type-srv_type, srv_type,
}
use rmw_opendds.Names.Demangle.Total.{demangle_total}
use rmw_opendds.Names.Demangle.Misplaced.{misplaced_suffix_accepted}

demangle-create_topic_name_example :
    demangle_if_ros_topic (codes "rt/chatter") ≡ ok (codes "/chatter")
unfolding create_topic_name
demangle-create_topic_name_example =
    demangle-create_topic_name (codes "chatter") (codes "rt/chatter") refl

demangle-create_type_name_example :
    demangle_if_ros_type (codes "std_msgs::msg::dds_::String_") ≡ ok (codes "std_msgs/String")
unfolding create_type_name
demangle-create_type_name_example =
    demangle-create_type_name (codes "std_msgs") (codes "String")
      (codes "std_msgs::msg::dds_::String_") (ground arith) refl

demangle-create_request_name_example :
    demangle_service_from_topic (codes "rq/addRequest") ≡ ok (codes "/add")
unfolding create_request_name
demangle-create_request_name_example =
    demangle-create_request_name (codes "add") (codes "rq/addRequest") refl

demangle-create_reply_name_example :
    demangle_service_from_topic (codes "rr/addReply") ≡ ok (codes "/add")
unfolding create_reply_name
demangle-create_reply_name_example =
    demangle-create_reply_name (codes "add") (codes "rr/addReply") refl

demangle_service-create_topic_name_example :
    demangle_service_from_topic (codes "rt/chatter") ≡ ok []
unfolding create_topic_name
demangle_service-create_topic_name_example =
    demangle_service-create_topic_name (codes "chatter") (codes "rt/chatter") refl

demangle_service_type_example :
    (demangle_service_type_only (srv_type (codes "p") (codes "Add") request_suffix)
      ≡ ok (codes "p/Add"))
    × (demangle_service_type_only (srv_type (codes "p") (codes "Add") response_suffix)
        ≡ ok (codes "p/Add"))
demangle_service_type_example =
    demangle_service_type-srv_type (codes "p") (codes "Add") (ground arith)

demangle_total_example :
    Returns (demangle_if_ros_topic (codes "rt"))
    × Returns (demangle_service_from_topic (codes "rt"))
    × Returns (demangle_service_type_only (codes "rt"))
    × (Returns (demangle_if_ros_type (codes "rt")) ↔ (codes "rt" ≢ []))
    × ((demangle_if_ros_type (codes "rt") ≡ undefined) ↔ (codes "rt" ≡ []))
demangle_total_example = demangle_total (codes "rt")

strip-eq-demangle_example : strip_ros_prefix_if_exists (codes "rt") ≡ out_of_range
strip-eq-demangle_example = strip-eq-demangle (codes "rt")

misplaced_suffix_example :
    demangle_service_type_only (srv_type (codes "p") (codes "Add") (request_suffix ++ codes "x"))
    ≡ ok (codes "p/Add")
unfolding rfind
misplaced_suffix_example =
    misplaced_suffix_accepted (codes "p") (codes "Add") (codes "x") (ground arith) (ground arith)
      refl
