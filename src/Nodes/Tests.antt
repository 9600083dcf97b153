-- ===== src/Nodes/Tests.antt =====
-- kernel/filesystem.cc: one FIFO, into which two processes write and from which one reads.
use wwos.Prelude.{ℕ, ◌^◌, ◌≡◌, refl, arith, List, [], ◌∷◌, ◌++◌, some, true, none}
use wwos.Bytes.{zeros}
use wwos.Avl.{leaf}
use wwos.Queue.Laws.{new-IsValid}
use wwos.Queue.Capacity.{new-empty}
use wwos.Wwfs.Sample.{disk, letters}
use wwos.Map.Laws
use wwos.Nodes.{FdType, FdMode, Nodes, fifo_file, fifo_size}
use wwos.Nodes.Opening.{open_shared_file_node, close_shared_file_node}
use wwos.Nodes.Opening.Sharing.{read_by, close-open}
use wwos.Nodes.Sample.{root, no_files, root-Leads, no_files-IsMapped}
use wwos.Nodes.Pipes.{Holds}
use wwos.Nodes.Fifo.{IsPipe, Event, read_bytes, write_bytes, run, run_order}

abbrev one_fifo : Nodes
one_fifo = record {
  fs = disk;
  node = λ p. record { inode = 3; type = FdType.fifo; readers = 1 ∷ []; writers = 2 ∷ [] };
  p_snode_inode = record { root = leaf (record { key = 4096; value = 3 }); m_size = 1 };
  p_inode_snode = record { root = leaf (record { key = 3; value = 4096 }); m_size = 1 };
  p_fifo = record { root = leaf (record { key = 4096; value = fifo_file }); m_size = 1 };
}

fifo_file-Holds : Holds fifo_size [] fifo_file
unfolding fifo_file fifo_size
fifo_file-Holds = record {
  valid = new-IsValid 0 (2 ^ 20) (omega arith) (omega arith);
  room = (new-empty 0 (2 ^ 20)).0;
  bytes = (new-empty 0 (2 ^ 20)).1;
}

one_fifo-IsPipe : IsPipe 4096 [] one_fifo
one_fifo-IsPipe = record {
  queue = fifo_file;
  there = omega arith;
  type = refl;
  fifos = omega arith;
  held = refl;
  holds = fifo_file-Holds;
}

abbrev events : List Event
events =
    write_bytes letters 0 10
    ∷ (read_bytes zeros 0 4 ∷ (write_bytes letters 0 3 ∷ (read_bytes zeros 4 100 ∷ [])))

run_order_example :
    (accepted : List ℕ) × (given : List ℕ) × (left : List ℕ) × (s : Nodes) × (run 4096 events
        one_fifo
      ≡ some (accepted, given, s))
    × (given ++ left ≡ accepted)
    × IsPipe 4096 left s
run_order_example = run_order 4096 events [] one_fifo one_fifo-IsPipe

close-open_example :
    (s : Nodes) × (t : Nodes) × (open_shared_file_node 8192 1 root FdMode.read_only no_files
      ≡ some (8192, s))
    × (s.node 8192 ≡ read_by 1 0 FdType.file)
    × (Laws.contents 0 s.p_inode_snode ≡ some 8192)
    × (close_shared_file_node 1 8192 s ≡ some (true, t))
    × ((j : ℕ) → Laws.contents j t.p_inode_snode ≡ none)
    × ((j : ℕ) → Laws.contents j t.p_snode_inode ≡ none)
    × (t.fs ≡ disk)
close-open_example =
    close-open 8192 1 0 1 root no_files root-Leads refl no_files-IsMapped refl refl (omega arith)
