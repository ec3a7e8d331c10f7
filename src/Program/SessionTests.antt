-- ===== src/Program/SessionTests.antt =====
-- An upload of three pieces, in two groups, through the whole program, to a disk that holds one file, and a
-- piece that comes at 2 GB.
use ccc_upgrade.Base.{
  ℕ, All, replicate, length-replicate, ◌<◌, ◌≡◌, refl, true, none, some, List, [], ◌∷◌, ◌++◌, arith,
  length,
}
use ccc_upgrade.Base.Bytes.{Bytes, codes, c_string}
use ccc_upgrade.Base.Int.{pos}
use ccc_upgrade.Md5.{hex_text}
use ccc_upgrade.Md5.Message.{digest_of}
use ccc_upgrade.Pool.{idle}
use ccc_upgrade.Files.Transfer.Tests.{
  Disk, singles, one_file, sending, one_file-IsFile, one_file-NeverFails,
}
use ccc_upgrade.Pool.Stock.{IsStocked}
use ccc_upgrade.Program.{Machine, World}
use ccc_upgrade.Protocol.{Pdu}
use ccc_upgrade.Program.Tests.{plenty, plenty-IsMalloc, any_packet, connected, idle-IsRing}
use ccc_upgrade.Program.StepTests.{first_free, first_free-IsFresh}
use ccc_upgrade.Program.Answer.{HasPlenty}
use ccc_upgrade.Program.Pieces.{file_of}
use ccc_upgrade.Program.Rounds.{IsWaiting, IsChunk}
use ccc_upgrade.Client.{first, Receiver}
use ccc_upgrade.Program.Verdict.{CanCheck, verdict}
use ccc_upgrade.Program.Session.{upload_chunks, Concludes, upload-program}
use ccc_upgrade.Files.Opening.{CanOpen}
use ccc_upgrade.Util.Text.{with_slash}

abbrev disk_machine : Machine Disk
disk_machine = record {
  os = one_file;
  send = λ sock data_ x. (pos (length data_), x);
  sendto = λ sock address data_ x. (pos (length data_), x);
  memory = λ x. (plenty, x);
  fresh_node = λ heap x. (first_free heap, x);
  getifaddrs = λ x. (some [], x);
  gethostname = λ x. (some [], x);
}

abbrev uploading : World Disk
uploading = record {
  pool = idle (λ a. none);
  clients = record {
    slot0 = record (connected (pos 0)) { b_login = true };
    slot1 = connected (pos 1);
    closed = [];
  };
  upload = sending;
  sock_udp_server = pos 4;
  outside = ([], 0);
}

disk-HasPlenty : HasPlenty disk_machine (λ (x : Disk). x.0)
disk-HasPlenty = record {
  memory_ = λ x. record {
    spare = any_packet;
    for_packet = refl;
    sized = plenty-IsMalloc;
    for_buffer = λ e. cc;
  };
  fresh = λ heap x. first_free-IsFresh heap;
  memory_view = λ x. refl;
  node_view = λ heap x. refl;
  send_view = λ sock data_ x. refl;
}

disk-CanCheck :
    CanCheck disk_machine 3 (with_slash (codes "/tmp") ++ c_string (codes "ab")) (λ (x : Disk). x.0)
disk-CanCheck = record { mallocs = λ size x. (x, refl, refl); opens = λ x. (singles x.0, x, refl) }

disk-CanOpen : CanOpen one_file (codes "/tmp") (c_string (codes "ab")) 3 (λ (x : Disk). x.0)
disk-CanOpen = record {
  there = λ w. refl;
  mallocs = λ size w. (w, refl, refl);
  creates = λ w. (([], 0), refl, refl);
}

title_lem : 0 < length (c_string (codes "ab"))
unfolding c_string
title_lem = omega arith

idle-IsStocked : IsStocked uploading.pool
idle-IsStocked = record {
  sound = record {
    full = [];
    spare = [];
    ring = idle-IsRing;
    bounded = omega arith;
    room = omega arith;
  };
  valid = tt;
}

-- Two groups, the second of two pieces.
abbrev groups_abc : List (List Bytes)
groups_abc = ((97 ∷ []) ∷ []) ∷ ((98 ∷ []) ∷ (99 ∷ []) ∷ []) ∷ []

abbrev sum_text : Bytes
sum_text = codes "900150983cd24fb0d6963f7d28e17f72"

abbrev receiver : Receiver
receiver = record { main_buf = replicate 8192 0; recv_len = pos 0 }

receiver-IsWaiting : IsWaiting receiver
receiver-IsWaiting = record { none_left = refl; buffer = length-replicate {A = ℕ} 8192 0 }

chunks_lem : All IsChunk (upload_chunks (codes "ab") groups_abc sum_text)
chunks_lem = (
  (omega arith, omega arith),
  ((omega arith, omega arith), ((omega arith, omega arith), ((omega arith, omega arith), tt))),
)

upload-program_example :
    let right = verdict (c_string sum_text) (file_of groups_abc) in
    Concludes disk_machine
      (some (codes "/tmp"))
      (pos 0)
      first
      receiver
      uploading
      (upload_chunks (codes "ab") groups_abc sum_text)
      right
    × (c_string sum_text ≡ hex_text (digest_of (file_of groups_abc)) → right ≡ true)
upload-program_example =
    upload-program disk_machine 3 (codes "/tmp") (codes "ab") (λ x. x.0) (λ x. x.1) (omega arith)
      title_lem disk-CanOpen disk-HasPlenty (pos 0)
      (one_file-IsFile (with_slash (codes "/tmp") ++ c_string (codes "ab"))) one_file-NeverFails
      disk-CanCheck groups_abc sum_text first receiver uploading
      (record { logged_in = refl; index = refl }) idle-IsStocked receiver-IsWaiting (omega arith)
      ((
        ((omega arith, omega arith), tt),
        ((((omega arith, omega arith), ((omega arith, omega arith), tt))), tt),
      ))
      (omega arith) (omega arith) chunks_lem

-- A piece of one byte at 2 GB.
abbrev far_pdu : Pdu
far_pdu = record {
  cmd = 0xE2;
  cmd_ex = 3;
  block = some (128 ∷ 0 ∷ 0 ∷ 0 ∷ 97 ∷ []);
  data_len = pos 5;
  checksum1 = 0;
  checksum2 = 0;
  b_enable = true;
}
