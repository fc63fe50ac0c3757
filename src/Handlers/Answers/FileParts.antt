-- ===== src/Handlers/Answers/FileParts.antt =====
-- Sources/GDBRemote/Session.cpp: the operations on files, and the parts of the queries, send one reply.
use ds.Base.{List, ℕ, Bool, true, false, if◌then◌else◌, Option, none, some, [], ◌∷◌, Bytes, ◌>>=◌}
use ds.Errors.{ErrorCode}
use ds.Session.{CompatibilityMode}
use ds.Structures.Replies.{ProgramResult}
use ds.Structures.Ids.{ProcessThreadId}
use ds.Structures.Json.{threads_json}
use ds.Structures.Processes.{ProcessInfo}
use ds.Handlers.Processes.{process_reply}
use ds.Handlers.Calls.{on_create_threads_stop_info}
use ds.Structures.Stops.{encode_with_all_threads, RemoteStopInfo, is_lldb}
use ds.Handlers.World.{Delegate, World, Action, assign, select, chk_send, send_computed}
use ds.Handlers.Files.{
  file_reply, file_open, file_close, read_result, file_pread, file_pwrite, with_path, file_unlink,
  file_readlink, file_exists, file_md5, file_size, file_operation, handle_v_file,
}
use ds.Handlers.Queries.{
  handle_q_thread_extra_info, thread_stop, threads_reply, next_symbol, program_reply, server_reply,
}
use ds.Handlers.Answers.{Sends, answers, chk_send-Sends, send_computed-Sends}

module _ (d : Delegate) where
  pub file_reply-Sends : (e : ErrorCode) (t : Bytes) (w : World d) → Sends d w (file_reply d e t w)
  unfolding file_reply
  file_reply-Sends e t w = search answers

  pub read_result-Sends :
      (m : CompatibilityMode) (e : ErrorCode) (a : ℕ × Bytes) (w : World d)
      → Sends d w (read_result d m e a w)
  unfolding read_result
  read_result-Sends m e a w = search answers

  pub with_path-Sends :
      (args : Bytes) (next : Bytes → Action d)
      → ((a : Bytes) (w : World d) → Sends d w (next a w))
      → (w : World d) → Sends d w (with_path d args next w)
  unfolding with_path
  with_path-Sends args next h w = search (answers, h)

ruleset replies = (file_reply-Sends, read_result-Sends, with_path-Sends)

module _ (d : Delegate) where
  file_operation-Sends :
      (m : CompatibilityMode) (op args : Bytes) (w : World d)
      → Sends d w (file_operation d m op args w)
  unfolding file_operation file_open file_close file_pread file_pwrite file_unlink file_readlink
      file_exists file_md5 file_size
  file_operation-Sends m op args w = search (answers, replies) depth 24

  pub v_file-Sends : (args : Bytes) (w : World d) → Sends d w (handle_v_file d args w)
  unfolding handle_v_file
  v_file-Sends args w = search (answers, file_operation-Sends)

  pub q_thread_extra_info-Sends :
      (args : Bytes) (w : World d) → Sends d w (handle_q_thread_extra_info d args w)
  unfolding handle_q_thread_extra_info
  q_thread_extra_info-Sends [] w = search answers
  q_thread_extra_info-Sends (c ∷ args) w = search answers

  ptids-Sends :
      (w : World d) (p : ℕ → ProcessThreadId) (o : Option (World d))
      → Sends d (record w { session = record w.session { ptids = p } }) o
      → Sends d w o
  ptids-Sends w p none h = tt
  ptids-Sends w p (some w') h = record {
    reply = h.reply;
    one = h.one;
    onward = record { acks = h.onward.acks; stays = h.onward.stays; lists = h.onward.lists };
  }

  -- What is done after a thread may have been selected.
  selected-Sends :
      (lldb_mode : Bool) (p : ℕ → ProcessThreadId) (next : Action d) (w : World d)
      → ((w : World d) → Sends d w (next w))
      → Sends d w
          (next (if lldb_mode then w else record w { session = record w.session { ptids = p } }))
  selected-Sends true p next w h = h w
  selected-Sends false p next w h = ptids-Sends w p _ (h _)

  pub thread_stop-Sends : (s : RemoteStopInfo) (w : World d) → Sends d w (thread_stop d s w)
  unfolding thread_stop select
  thread_stop-Sends s w =
      let json_reply : Bytes → Action d =
        λ json. send_computed d (encode_with_all_threads s w.session.mode json) in
      selected-Sends (is_lldb w.session.mode)
        (assign (assign w.session.ptids b'g' s.ptid) b'c' s.ptid)
        (chk_send d on_create_threads_stop_info json_reply) w
        λ w'.
          chk_send-Sends d on_create_threads_stop_info json_reply
            (λ json. send_computed-Sends d (encode_with_all_threads s w.session.mode json)) w'

  pub threads_reply-Sends :
      (stops : List RemoteStopInfo × RemoteStopInfo) (w : World d)
      → Sends d w (threads_reply d stops w)
  unfolding threads_reply select
  threads_reply-Sends (stops, stop) w =
      let array : Option Bytes = threads_json stops >>= λ threads. some (d.json_text threads) in
      selected-Sends (is_lldb w.session.mode)
        (assign (assign w.session.ptids b'g' stop.ptid) b'c' stop.ptid) (send_computed d array) w
        (send_computed-Sends d array)

  pub process_reply-Sends : (i : ProcessInfo) (w : World d) → Sends d w (process_reply d i w)
  unfolding process_reply
  process_reply-Sends i w = search answers

  pub next_symbol-Sends : (s : Bytes) (w : World d) → Sends d w (next_symbol d s w)
  unfolding next_symbol
  next_symbol-Sends s w = search answers

  pub program_reply-Sends :
      (e : ErrorCode) (r : ProgramResult) (w : World d) → Sends d w (program_reply d e r w)
  unfolding program_reply
  program_reply-Sends e r w = search answers

  pub server_reply-Sends :
      (e : ErrorCode) (a : ℕ × ℕ) (w : World d) → Sends d w (server_reply d e a w)
  unfolding server_reply
  server_reply-Sends e a w = search answers

pub ruleset file_parts = (
  v_file-Sends, q_thread_extra_info-Sends, thread_stop-Sends, threads_reply-Sends,
  process_reply-Sends, next_symbol-Sends, program_reply-Sends, server_reply-Sends,
)
