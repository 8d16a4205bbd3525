-- ===== src/Runs/Io.antt =====
-- The runloop, and the thread that writes files, on a disk that is a function of the files' dates.
use pinenut.Prelude.{
  sym, ap, ◌∙◌, Bool-cases, inl, inr, bytes_eq, bytes_eq_refl, bytes_eq→eq, ℕ, ◌≡◌, ◌≢◌, refl,
  arith, List, [], ◌∷◌, ◌++◌, true, false, ◌==◌, if◌then◌else◌, none, ok,
}
use pinenut.Common.LittleEndian.{from_le_bytes}
use pinenut.Chunk.{chunk_bytes, header_bytes, payload_len, header_payload_len}
use pinenut.Chunk.Write.{IsChunk}
use pinenut.Buffer.{right}
use pinenut.Runloop.{Runloop, Handle, run, send, receive}
use pinenut.Runloop.Fifo.{Reach, begins, sends, receives, Fifo, Reach-Fifo, Stops}
use pinenut.TimeDimension.{minute}
use pinenut.Logger.{IoEvent, trim, shutdown, hand_over}
use pinenut.Logger.Io.{Io, handle, io_write_chunk}
use pinenut.Logger.Io.Delivered.{Delivered, hand_over-Delivered}
use pinenut.Logfile.Files.{FileSystem}
use pinenut.Logfile.Files.Disk.{IsDisk}
use pinenut.Logger.Io.Shutdown.{shutdown-Stops}
use pinenut.Runs.Clock.{noon, clock}
use pinenut.Runs.Chunk.{top-IsHeader}
use pinenut.Runs.Encrypt.{plus}
use pinenut.Runs.Logger.{copy, core, memory, memory-IsBuffer, one}

-- A handler that keeps the events and stops at 9.
abbrev keep_all : Handle (List ℕ) ℕ
keep_all e seen = (seen ++ (e ∷ []), e == 9)

abbrev waiting : List ℕ → Runloop (List ℕ) ℕ
waiting events = record { queue = events; is_stopped = false; handler = [] }

two_sent : Reach keep_all [] (4 ∷ 9 ∷ []) [] (waiting (4 ∷ 9 ∷ []))
unfolding run send
two_sent = sends 9 (sends {l = waiting []} {l' = waiting (4 ∷ [])} 4 begins refl) refl

one_taken :
    Reach keep_all []
      (4 ∷ 9 ∷ [])
      (4 ∷ [])
      (record { queue = 9 ∷ []; is_stopped = false; handler = 4 ∷ [] })
unfolding receive
one_taken = receives 4 (9 ∷ []) two_sent refl refl

Reach-Fifo_example :
    Fifo keep_all []
      (4 ∷ 9 ∷ [])
      (4 ∷ [])
      (record { queue = 9 ∷ []; is_stopped = false; handler = 4 ∷ [] })
Reach-Fifo_example = Reach-Fifo keep_all [] one_taken

abbrev pub app : List ℕ
app = 97 ∷ []

-- Files are known by their names, and a disk is a function of them.
abbrev pub Disk : Type 0
Disk = List ℕ → List ℕ

abbrev pub disk_files : FileSystem (List ℕ) Disk
disk_files = record {
  create_dir_all = λ d. (ok tt, d);
  open_file = λ options n d. (ok n, d);
  seek_end = λ f d. (ok tt, d);
  write_all = λ f bytes d. (ok tt, λ g. if bytes_eq f g then d g ++ bytes else d g);
  flush_file = λ f d. (ok tt, d);
  sync_all = λ f d. (ok tt, d);
  remove_file = λ n d. (ok tt, λ g. if bytes_eq n g then [] else d g);
  read_dir = λ d. (ok [], d);
}

pub disk_files-IsDisk : IsDisk disk_files (λ d. d) (λ f. f)
disk_files-IsDisk = record {
  creates = λ d. (tt, d, refl, λ g. refl);
  opens = λ n d. (n, d, refl, λ g. refl);
  names = λ n d d' f e. cc (e);
  seeks = λ f d. (tt, d, refl, λ g. refl);
  flushes = λ f d. (tt, d, refl, λ g. refl);
  syncs = λ f d. (tt, d, refl, λ g. refl);
  writes = λ f bytes d. (_, refl);
  appends = λ f bytes d d' e. appended f bytes d d' (cc (e));
  others = λ f bytes d d' g e other. kept f bytes d d' g (cc (e)) other;
}
  where
    appended :
        (f bytes : List ℕ) (d d' : Disk)
        → (λ g. if bytes_eq f g then d g ++ bytes else d g) ≡ d'
        → d' f ≡ d f ++ bytes
    appended f bytes d d' e = sym (ap (λ h. h f) e) ∙ rw (bytes_eq_refl f) refl

    kept :
        (f bytes : List ℕ) (d d' : Disk) (g : List ℕ)
        → (λ g. if bytes_eq f g then d g ++ bytes else d g) ≡ d'
        → f ≢ g
        → d' g ≡ d g
    kept f bytes d d' g e other = sym (ap (λ h. h g) e) ∙ elim (Bool-cases (bytes_eq f g)) [
      | inl same ↦ absurd (other (bytes_eq→eq f g same))
      | inr differs ↦ rw differs refl
    ]

abbrev pub idle : Io clock (List ℕ) Disk
idle = record { logfile = none; disk = λ f. []; errors = [] }

one-IsChunk : IsChunk one
unfolding from_le_bytes payload_len header_payload_len
one-IsChunk = record {
  layout = top-IsHeader;
  magic = refl;
  within = omega arith;
  u32 = omega arith;
}

hand_over-Delivered_example :
    Delivered clock disk_files-IsDisk app minute plus true copy idle core one (
      io_write_chunk clock disk_files app minute
        (idle, (hand_over clock plus true copy (core, one)).0.memory))
unfolding chunk_bytes header_bytes payload_len header_payload_len from_le_bytes
hand_over-Delivered_example =
    hand_over-Delivered clock disk_files-IsDisk app minute plus true copy right idle core one tt
      memory-IsBuffer one-IsChunk refl (omega arith)

abbrev waiting_io : Runloop (Io clock (List ℕ) Disk × List ℕ) IoEvent
waiting_io = record {
  queue = trim 60 ∷ shutdown ∷ [];
  is_stopped = false;
  handler = (idle, memory);
}

sent_io :
    Reach
      (handle clock disk_files app minute noon)
      (idle, memory)
      (trim 60 ∷ shutdown ∷ [])
      []
      waiting_io
unfolding run send
sent_io =
    sends shutdown
      (sends {l' = record { queue = trim 60 ∷ []; is_stopped = false; handler = (idle, memory) }}
        (trim 60) begins refl)
      refl

shutdown-Stops_example :
    Stops
      (handle clock disk_files app minute noon)
      (idle, memory)
      (trim 60 ∷ shutdown ∷ [])
      (trim 60 ∷ shutdown ∷ [])
shutdown-Stops_example =
    shutdown-Stops clock disk_files app minute noon (idle, memory) (trim 60 ∷ []) [] waiting_io
      sent_io refl refl ((λ e. cc), tt)
