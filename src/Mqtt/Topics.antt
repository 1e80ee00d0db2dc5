-- ===== src/Mqtt/Topics.antt =====
-- `_extract_node_id` and `_topic_suffix` of gateway/app/core/mqtt_client.py, and the topics that the
-- gateway publishes to.
use cnp_v1_starter_kit.Prelude.{
  String, ◌≡◌, refl, List, [], ◌∷◌, split, split_at_most, lacks, true, arith, ◌+++◌,
}

abbrev pub fourth : List String → String
fourth (a ∷ b ∷ c ∷ d ∷ rest) = d
fourth _ = "unknown"

abbrev pub fifth : List String → String
fifth (a ∷ b ∷ c ∷ d ∷ e ∷ rest) = e
fifth _ = ""

unfoldable pub extract_node_id : String → String
extract_node_id topic = fourth (split b'/' topic)

unfoldable pub topic_suffix : String → String
topic_suffix topic = fifth (split_at_most b'/' 4 topic)

-- The topic of a node, `f"cnp/v1/nodes/{node_id}/{suffix}"`.
unfoldable pub node_topic : String → String → String
node_topic node_id suffix = "cnp/v1/nodes/" +++ (node_id +++ ("/" +++ suffix))

split-append :
    (node_id rest : String)
    → lacks b'/' node_id ≡ true
    → split b'/' (node_id +++ ("/" +++ rest)) ≡ node_id ∷ split b'/' rest
split-append String.[] rest h = refl
split-append (String.◌∷◌ c s) rest h = ground (arith, split-append s rest)

cut-append :
    (node_id rest : String)
    → lacks b'/' node_id ≡ true
    → split_at_most b'/' 1 (node_id +++ ("/" +++ rest)) ≡ node_id ∷ rest ∷ []
cut-append String.[] rest h = refl
cut-append (String.◌∷◌ c s) rest h = ground (arith, cut-append s rest)

-- A topic that is built for a node, whose identifier has no slash, is read back as that node and
-- that suffix, slashes in the suffix included.
topic-roundtrip :
    (node_id suffix : String)
    → lacks b'/' node_id ≡ true
    → (extract_node_id (node_topic node_id suffix) ≡ node_id)
      × (topic_suffix (node_topic node_id suffix) ≡ suffix)
unfolding extract_node_id topic_suffix node_topic
topic-roundtrip node_id suffix clean =
    (rw (split-append node_id suffix clean), rw (cut-append node_id suffix clean))
