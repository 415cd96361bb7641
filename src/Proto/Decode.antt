-- ===== src/Proto/Decode.antt =====
-- `Message::decode` of crates/kvm-proto/src/message.rs.
use self_kvm.Common.{
  ℕ, List, ◌&&◌, not, ltb, leb, ◌==◌, ◌=l=◌, if◌then◌else◌, length, take, drop, ok, err,
}
use self_kvm.Proto.Code
use self_kvm.Proto.Error.{ProtoResult, unexpected_eof, unknown_code}
use self_kvm.Proto.Message.{
  Message, hello, hello_back, query_info, device_info, info_ack, reset_options, set_options,
  keep_alive, no_op, close, screen_saver, enter, leave, key_down, key_up, key_repeat, mouse_down,
  mouse_up, mouse_move, mouse_rel_move, mouse_wheel, clipboard_grab, clipboard_data, file_offer,
  file_chunk, file_end, file_accept, err_incompatible, err_busy, err_unknown, err_bad,
}
use self_kvm.Proto.Reader.{
  Read, return, fail, ◌>>=◌, new, is_empty, fixed, u8, i8, u16, i16, u32, u64, bytes, string,
  i32_vec,
}

-- After the magic: a greeting ends behind the version, a reply goes on with the client's name.
abbrev pub greeting : Read Message
greeting = do
  _ ← fixed 7
  major ← i16
  minor ← i16
  λ r.
      if is_empty r
      then ok (hello major minor, r)
      else (do name ← string; return (hello_back major minor name)) r

-- The fields that follow the four bytes `c` of an opcode.
abbrev pub fields : List ℕ → Read Message
fields c =
    if c =l= Code.query_info
    then return query_info
    else if c =l= Code.device_info
    then (do
      x ← i16
      y ← i16
      w ← i16
      h ← i16
      warp ← i16
      mx ← i16
      my ← i16
      return (device_info x y w h warp mx my))
    else if c =l= Code.info_ack
    then return info_ack
    else if c =l= Code.reset_options
    then return reset_options
    else if c =l= Code.set_options
    then (do opts ← i32_vec; return (set_options opts))
    else if c =l= Code.keep_alive
    then return keep_alive
    else if c =l= Code.no_op
    then return no_op
    else if c =l= Code.close
    then return close
    else if c =l= Code.screen_saver
    then (do on ← u8; return (screen_saver (not (on == 0))))
    else if c =l= Code.enter
    then (do x ← i16; y ← i16; seq ← u32; modifiers ← u16; return (enter x y seq modifiers))
    else if c =l= Code.leave
    then return leave
    else if c =l= Code.key_down
    then (do id ← u16; mask ← u16; button ← u16; return (key_down id mask button))
    else if c =l= Code.key_up
    then (do id ← u16; mask ← u16; button ← u16; return (key_up id mask button))
    else if c =l= Code.key_repeat
    then (do
      id ← u16
      mask ← u16
      count ← u16
      button ← u16
      return (key_repeat id mask count button))
    else if c =l= Code.mouse_down
    then (do button ← i8; return (mouse_down button))
    else if c =l= Code.mouse_up
    then (do button ← i8; return (mouse_up button))
    else if c =l= Code.mouse_move
    then (do x ← i16; y ← i16; return (mouse_move x y))
    else if c =l= Code.mouse_rel_move
    then (do dx ← i16; dy ← i16; return (mouse_rel_move dx dy))
    else if c =l= Code.mouse_wheel
    then (do x ← i16; y ← i16; return (mouse_wheel x y))
    else if c =l= Code.clipboard_grab
    then (do id ← i8; seq ← u32; return (clipboard_grab id seq))
    else if c =l= Code.clipboard_data
    then (do id ← i8; seq ← u32; mark ← i8; b ← bytes; return (clipboard_data id seq mark b))
    else if c =l= Code.file_offer
    then (do id ← u32; name ← string; size ← u64; return (file_offer id name size))
    else if c =l= Code.file_chunk
    then (do id ← u32; seq ← u32; b ← bytes; return (file_chunk id seq b))
    else if c =l= Code.file_end
    then (do id ← u32; count ← u32; return (file_end id count))
    else if c =l= Code.file_accept
    then (do id ← u32; accept ← u8; return (file_accept id (not (accept == 0))))
    else if c =l= Code.err_incompatible
    then (do major ← i16; minor ← i16; return (err_incompatible major minor))
    else if c =l= Code.err_busy
    then return err_busy
    else if c =l= Code.err_unknown
    then return err_unknown
    else if c =l= Code.err_bad
    then return err_bad
    else fail (unknown_code c)

-- What is left in the reader is dropped.
abbrev pub message_of : ProtoResult (Message × List ℕ) → ProtoResult Message
message_of (ok (m, r)) = ok m
message_of (err e) = err e

unfoldable pub decode : List ℕ → ProtoResult Message
unfolding new is_empty fixed u8 i8 u16 i16 u32 u64
decode payload =
    if leb 7 (length payload) && take 7 payload =l= Code.hello_magic
    then message_of (greeting (new payload))
    else if ltb (length payload) 4
    then err (unexpected_eof 4 (length payload))
    else message_of (fields (take 4 payload) (new (drop 4 payload)))
