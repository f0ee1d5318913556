-- ===== src/Pipe/Examples.antt =====
-- Runs of riscv/kernel/pipe.c on small pipes.
use learn_xv.Prelude.{
  not, ◌-◌, ◌^◌, ◌≡◌, refl, [], ◌∷◌, ◌++◌, true, false, some, arith, length, ring,
}
use learn_xv.Pipe.{
  Pipe, WriteRun, ReadRun, pipewrite, pipewrite_from, piperead, pipeclose, minus_one,
}
use learn_xv.Pipe.Contents.{contents, Valid}
use learn_xv.Pipe.Write.{Written, pipewrite_from-Written}
use learn_xv.Pipe.Read.{ReadEnds, Copied, deliver, piperead-ReadEnds}
use learn_xv.Pipe.RoundTrip.{IsWrite, write_read}
use learn_xv.Pipe.Close.{pipeclose_lem}

-- One byte, 7, in a pipe whose counters are about to wrap.
abbrev old_pipe : Pipe
old_pipe = record {
  data_ = λ i. 7;
  nread = 2 ^ 32 - 2;
  nwrite = 2 ^ 32 - 1;
  readopen = true;
  writeopen = true;
}

old-Valid : Valid old_pipe
old-Valid = record { nread = omega arith; nwrite = omega arith; fits = omega arith }

old-contents : contents old_pipe ≡ 7 ∷ []
unfolding contents ring
old-contents = refl

pipewrite_from-Written_example :
    Written
      (λ i. false)
      (λ a. some a)
      100
      3
      0
      old_pipe
      (pipewrite_from (λ i. false) (λ a. some a) 100 3 0 old_pipe)
pipewrite_from-Written_example =
    pipewrite_from-Written (λ i. false) (λ a. some a) 100 3 0 old_pipe old-Valid (omega arith)
      (omega arith)

piperead-ReadEnds_example :
    ReadEnds false
      (λ a. true)
      40
      5
      (λ a. 0)
      old_pipe
      (piperead false (λ a. true) 40 5 (λ a. 0) old_pipe)
piperead-ReadEnds_example =
    piperead-ReadEnds false (λ a. true) 40 5 (λ a. 0) old_pipe old-Valid (omega arith)

three : IsWrite (λ i. false) (λ a. some a) 100 0 (100 ∷ 101 ∷ 102 ∷ []) old_pipe
three = record {
  copied = (refl, (refl, (refl, tt)));
  alive = λ j. refl;
  reader = refl;
  room = rw old-contents (omega arith);
  valid = old-Valid;
}

write_read_example :
    (q r : Pipe) × (pipewrite (λ i. false) (λ a. some a) 100 3 old_pipe ≡ WriteRun.returns 3 q)
    × (piperead false (λ a. true) 40 (length (contents q)) (λ a. 0) q
        ≡ ReadRun.returns
            (length (contents q))
            (deliver 40 0 (contents old_pipe ++ 100 ∷ 101 ∷ 102 ∷ []) (λ a. 0))
            r)
    × (contents r ≡ [])
write_read_example =
    write_read 100 (λ i. false) (λ a. some a) 40 (λ a. true) (100 ∷ 101 ∷ 102 ∷ []) (λ a. 0)
      old_pipe three (λ a. refl) (omega arith)

pipeclose_lem_example :
    let q = (pipeclose true old_pipe).pipe in
    let r = (pipeclose false old_pipe).pipe in
    (contents q ≡ contents old_pipe)
    × Copied (λ a. true) 40 5 0 (λ a. 0) q (piperead false (λ a. true) 40 5 (λ a. 0) q)
    × (pipewrite (λ i. false) (λ a. some a) 40 5 r ≡ WriteRun.returns minus_one r)
    × ((pipeclose true old_pipe).freed ≡ not old_pipe.readopen)
    × ((pipeclose false old_pipe).freed ≡ not old_pipe.writeopen)
    × (q.readopen ≡ old_pipe.readopen)
    × (r.writeopen ≡ old_pipe.writeopen)
    × ((pipeclose false q).freed ≡ true)
    × ((pipeclose true r).freed ≡ true)
pipeclose_lem_example =
    pipeclose_lem false (λ a. true) 40 5 (λ a. 0) (λ i. false) (λ a. some a) old_pipe old-Valid
      (omega arith) (omega arith)
