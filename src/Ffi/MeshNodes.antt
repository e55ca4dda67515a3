-- ===== src/Ffi/MeshNodes.antt =====
-- ffi/src/mesh_ffi.rs: a mesh node through the C interface. A call that changes the node returns
-- it; the fresh message id is an argument.
use pigeonhole_clarity_messe.Prelude.{Option, none, some, map}
use pigeonhole_clarity_messe.Prelude.Bytes.{Bytes}
use pigeonhole_clarity_messe.Prelude.Result.{Result, ok, err}
use pigeonhole_clarity_messe.Mesh.Node
use pigeonhole_clarity_messe.Mesh.Node.{
  MeshNode, MeshFrame, FrameCodec, originate, handle_incoming, outbound, take_inbox,
}
use pigeonhole_clarity_messe.Ffi.Buffer.{
  ClarityBuffer, Code, done, failed, from_vec, null, as_slice, read_key, encode_byte_list,
}

abbrev pub node_for : Option Bytes → Option MeshNode
unfolding Node.new
node_for (some id) = some (Node.new id)
node_for none = none

unfoldable pub clarity_mesh_node_new : Option Bytes → Option MeshNode
unfolding node_for read_key
clarity_mesh_node_new me = node_for (read_key me)

module _ (codec : FrameCodec) where
  abbrev pub originate_to :
      Bytes → MeshNode → Option Bytes → Bytes → Option MeshNode × ClarityBuffer
  unfolding originate from_vec null
  originate_to msg_id node (some recipient) payload =
      let (after, frame) = originate node msg_id recipient payload in
      (some after, from_vec (codec.encode frame))
  originate_to msg_id node none payload = (some node, null)

  unfoldable pub clarity_mesh_originate :
      Bytes → Option MeshNode → Option Bytes → Option Bytes → Option MeshNode × ClarityBuffer
  unfolding originate_to read_key null as_slice
  clarity_mesh_originate msg_id none recipient payload = (none, null)
  clarity_mesh_originate msg_id (some node) recipient payload =
      originate_to msg_id node (read_key recipient) (as_slice payload)

  abbrev pub ingest_frame : MeshNode → Result Bytes MeshFrame → Option MeshNode × Code
  unfolding handle_incoming
  ingest_frame node (ok frame) = (some (handle_incoming node frame).0, done)
  ingest_frame node (err e) = (some node, failed)

  unfoldable pub clarity_mesh_ingest : Option MeshNode → Option Bytes → Option MeshNode × Code
  unfolding ingest_frame as_slice
  clarity_mesh_ingest none frame = (none, failed)
  clarity_mesh_ingest (some node) frame = ingest_frame node (codec.decode (as_slice frame))

  unfoldable pub clarity_mesh_pending_broadcast : Option MeshNode → ClarityBuffer
  unfolding outbound encode_byte_list from_vec null
  clarity_mesh_pending_broadcast none = null
  clarity_mesh_pending_broadcast (some node) =
      from_vec (encode_byte_list (map codec.encode (outbound node)))

unfoldable pub clarity_mesh_take_inbox : Option MeshNode → Option MeshNode × ClarityBuffer
unfolding take_inbox encode_byte_list from_vec null
clarity_mesh_take_inbox none = (none, null)
clarity_mesh_take_inbox (some node) =
    let (after, messages) = take_inbox node in (some after, from_vec (encode_byte_list messages))
