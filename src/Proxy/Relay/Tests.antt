-- ===== src/Proxy/Relay/Tests.antt =====
-- A message without a body, and the first chunk of one with a body.
use cmon.Base.{◌≡◌, refl, some, [], ◌++◌, replicate, arith, ok, fault}
use cmon.Base.Int.{pos}
use cmon.Http.Message.{CmonHttpMessage, send_headers, recv_body_chunk}
use cmon.Str.Sample.{ample}
use cmon.Proxy.Sample.{speaking, blank, greeting}
use cmon.Proxy.Relay.{send_message}
use cmon.Proxy.Relay.Bodyless.{send_message-bodyless}
use cmon.Proxy.Relay.Overflow.{send_message-fault}

abbrev plain : CmonHttpMessage
plain = record blank { headers_buff = greeting; headers_size = 18; total_msg_size = 18 }

send_message-bodyless_example :
    send_message (speaking 6).net ample 1 [] (some plain) (pos 4) 1
    ≡ ok (some (record { rc = pos 18; send_size = some 18; msg = some plain }), 2)
send_message-bodyless_example =
    send_message-bodyless (speaking 6).net ample 0 [] plain (pos 4) 1 2 refl (omega arith)
      (omega arith) refl refl

-- Eighteen bytes of the body are to come.
abbrev page : CmonHttpMessage
page = record blank {
  headers_buff = greeting;
  headers_size = 18;
  body_chunk = replicate 30 0;
  total_msg_size = 36;
  content_length = 18;
  remaining_data = 18;
}

abbrev page_read : CmonHttpMessage
page_read = record page {
  body_chunk = greeting ++ replicate 12 0;
  cur_body_size = 18;
  remaining_data = 0;
}

headers_out : send_headers (speaking 6).net (some page) (pos 4) 1 ≡ ok (pos 18, 2)
unfolding send_headers
headers_out = refl

chunk_in : recv_body_chunk (speaking 6).net (some page) 2 ≡ ok (pos 18, some page_read, 3)
unfolding recv_body_chunk
chunk_in = refl

send_message-fault_example :
    send_message (speaking 6).net ample 1 (replicate 12 0) (some page) (pos 4) 1 ≡ fault
send_message-fault_example =
    send_message-fault (speaking 6).net ample 0 (replicate 12 0) page page_read (pos 4) 18 18 1 2 3
      refl refl headers_out (omega arith) chunk_in (omega arith) (omega arith)
