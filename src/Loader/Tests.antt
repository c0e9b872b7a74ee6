-- ===== src/Loader/Tests.antt =====
-- A program of four instructions, printed and loaded.
use osassignment_hk.Base.{ℕ, ◌+◌, ◌^◌, ◌%◌, ◌≡◌, refl, ap, List, [], ◌∷◌, length, take, arith}
use osassignment_hk.Process.{alloc, write, syscall, Inst}
use osassignment_hk.Process.Example.{calculate, two_steps}
use osassignment_hk.Stdio.{done}
use osassignment_hk.Loader.{load}
use osassignment_hk.Loader.Print.{Reads, print, settled}
use osassignment_hk.Loader.Example.{scan_num, scan_word, scan_line, items_io}
use osassignment_hk.Loader.RoundTrip.{load-print}

abbrev program : List Inst
program =
    record { opcode = alloc; arg_0 = 300; arg_1 = 0; arg_2 = 0; arg_3 = 0 }
    ∷ record { opcode = write; arg_0 = 100; arg_1 = 0; arg_2 = 20; arg_3 = 0 }
    ∷ calculate
    ∷ record { opcode = syscall; arg_0 = 101; arg_1 = 1; arg_2 = 0; arg_3 = 0 }
    ∷ []

items_read : Reads (items_io program) (λ f ts. f ≡ ts)
items_read = record {
  number = λ f n ts e small. (ts, ap scan_num e, refl);
  text = λ f w ts e. (ts, ap scan_word e, refl);
  space = λ f ts e. e;
  one_line = λ f ns ts e four small. (ns, ts, ap scan_line e, refl, refl);
}

abbrev path : List ℕ
path = b'p' ∷ b'0' ∷ []

load-print_example :
    load (items_io program) (λ i. calculate) [] [] two_steps 3 path
    ≡ done (
      record two_steps {
        pid = 3;
        bp = 2 ^ 10;
        pc = 0;
        path = take 16 path;
        priority = 5;
        code = record { text = settled (λ i. calculate) 0 program; size = length program };
      },
      (3 + 1) % 2 ^ 32,
    )
load-print_example =
    load-print (items_io program) (λ f ts. f ≡ ts) items_read (λ i. calculate) [] [] path two_steps
      3 5 (print 5 program) program refl refl (omega arith) (omega arith) (omega arith)
