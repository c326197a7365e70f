-- ===== src/Session.antt =====
-- `Session` of src/session.cc: what its handlers do with the completion of a read or a write.
use raddish.Base.{Bool, true, false}
use raddish.Std.{Exception}
use raddish.Config.Settings.{ConfigInfo}
use raddish.Http.{Request, Response}
use raddish.Serve.{World, Platform, Socket, Served, answered, throws, exited, create_response}
use raddish.Serve

-- The error codes that `handle_read` tells apart.
pub data ReadError : Type 0 where
  no_error partial_message end_of_stream eof connection_reset other_error : ReadError

-- What a handler does with its session: it starts a write or a read, starts nothing, or deletes the
-- session; or the call ends by an exception, by `exit`, or in undefined behaviour.
pub data Next : Type 0 where
  async_write : World → Response → Next
  async_read : Next
  nothing : Next
  delete_this : Next
  raises : Exception → Next
  exits : Next
  undefined : Next

-- `prepare_payload` sets the header for the length, which the model of a response leaves out.
abbrev pub write_response : Served → Next
write_response (answered w response log) = async_write w response
write_response (throws e) = raises e
write_response exited = exits
write_response Serve.undefined = undefined

-- `handle_read`, with the request that the read left in `req_`.
unfoldable pub handle_read : Platform → ConfigInfo → Socket → World → ReadError → Request → Next
handle_read p config socket w no_error request =
    write_response (create_response p socket config w request)
handle_read p config socket w partial_message request = nothing
handle_read p config socket w end_of_stream request = delete_this
handle_read p config socket w eof request = delete_this
handle_read p config socket w connection_reset request = delete_this
handle_read p config socket w other_error request = delete_this

-- `handle_write`, for whether there was an error.
unfoldable pub handle_write : Bool → Next
handle_write true = delete_this
handle_write false = async_read
