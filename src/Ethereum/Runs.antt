-- ===== src/Ethereum/Runs.antt =====
-- Runs of blocks of Ethereum transactions, on a runner that counts them.
use frontier.Base.{ℕ, ◌+◌, ◌≡◌, refl, arith, Option, none, some, List, [], ◌∷◌, length}
use frontier.Evm.Weight.{ok, err}
use frontier.Evm.Validation.Tests.{by_length}
use frontier.Evm.Runner.Execute.{ExecutionInfo, ExitReason}
use frontier.Client.Consensus.{Decoder, PostLog, find_log}
use frontier.Ethereum.Instances.{function_map}
use frontier.Ethereum.Transaction.{Action, Transaction}
use frontier.Ethereum.Execute.{Pallet, execute, parts}
use frontier.Ethereum.Block.{
  Block, BloomFilter, Entry, Outside, PostLogContent, Storage, Surroundings, store_block,
}
use frontier.Ethereum.Block.Pending.{empty-Holds}
use frontier.Ethereum.Apply.{outcome}
use frontier.Ethereum.Apply.Sequence.{Reports, apply_all, apply_all-Reports, executed}
use frontier.Ethereum.Hooks.{Config, on_finalize}
use frontier.Ethereum.Hooks.Digest.{announced, on_finalize-find_log}
use frontier.Ethereum.Hooks.Chain.{Input, Linked, blocks, finalize_all, finalize_all-Linked}

-- A bloom that counts.
abbrev pub counting : BloomFilter
counting = record {
  Bloom = ℕ;
  default = 0;
  accrue_address = λ a n. n + 1;
  accrue_topic = λ t n. n + 1;
}

abbrev pub some_post : PostLog → Option PostLog
some_post l = some l

-- Items that are the logs themselves.
abbrev pub decoder : Decoder
decoder = record { Item = PostLog; try_pre = λ item. none; try_post = some_post }

abbrev pub outside : Outside
outside = record {
  bloom = counting;
  pending = function_map (Entry counting);
  transaction_hash = λ t. 5;
  header_hash = λ b. b.header.number + b.header.gas_used + 1000;
  receipts_root = λ rs. length rs;
  decoder = decoder;
  consensus_item = λ l. l;
  find_author = λ items. 9;
}

abbrev pub info : ℕ → ExecutionInfo (List ℕ)
info n = record {
  exit_reason = ExitReason.succeed 0;
  value = [];
  standard = 21_000;
  effective = 21_000 + n;
  weight_info = none;
  logs = record { address = 5; topics = 1 ∷ 2 ∷ []; payload = [] } ∷ [];
}

-- The state counts the calls; a call costs one gas more than the one before.
abbrev pub counter : Pallet ℕ
counter = record {
  gasometer = by_length;
  evm_config = tt;
  gas_config = record {
    weight_per_gas = record { ref_time = 25_000; proof_size = 0 };
    base_extrinsic = record { ref_time = 1_000; proof_size = 0 };
    pov_size_ratio = 4;
  };
  encoded_len = λ t. 100;
  chain = λ w. record {
    base_fee = 10;
    base_fee_weight = record { ref_time = 25; proof_size = 0 };
    account_basic = λ a. record { balance = 1_000_000; nonce = 3 };
    account_basic_weight = record { ref_time = 25; proof_size = 0 };
    block_gas_limit = 1_000_000;
    chain_id = 42;
  };
  account_code = λ w a. [];
  runner = record {
    call = λ config t target w. (w + 1, ok (info w));
    create = λ config t w. (
      w,
      err (record {
        error = frontier.Evm.Runner.Execute.Error.balance_low;
        weight = record { ref_time = 25; proof_size = 0 };
      }),
    );
  };
}

abbrev pub legacy : Action → Transaction
legacy action = Transaction.legacy (record {
  nonce = 3;
  gas_price = 20;
  gas_limit = 30_000;
  action = action;
  value = 7;
  input = [];
  chain_id = some 42;
})

abbrev pub surroundings : Surroundings
surroundings = record { state_root = 1; block_gas_limit = 1_000_000; timestamp = 12 }

abbrev pub start : Storage outside
start = record {
  queue = outside.pending.empty;
  current_block = none;
  current_receipts = none;
  current_transaction_statuses = none;
  block_hash = λ n. 0;
  digest = [];
  events = [];
  schema = none;
}

-- Two calls, and a creation that fails between them.
abbrev three : List (ℕ × Transaction)
three = (1, legacy (Action.call 5)) ∷ (2, legacy Action.create) ∷ (1, legacy (Action.call 6)) ∷ []

apply_all-Reports_example :
    Reports outside 30 counter
      (some PostLogContent.only_block_hash)
      surroundings
      8
      (apply_all outside 30 counter three (0, start)).1
      (store_block outside
        (some PostLogContent.only_block_hash)
        surroundings
        8
        (apply_all outside 30 counter three (0, start)).1)
      (executed outside 30 counter three 0)
unfolding execute parts outcome
apply_all-Reports_example =
    apply_all-Reports outside 30 counter (some PostLogContent.only_block_hash) surroundings 8 three
      0 start (empty-Holds outside.pending) (omega arith)

abbrev pub config : Config ℕ
config = record {
  outside = outside;
  pallet = counter;
  extra_data_length = 30;
  post_log_content = PostLogContent.only_block_hash;
  block_hash_count = 2;
  weights = record {
    kill_storage = record { ref_time = 25; proof_size = 0 };
    reads_writes = λ r w. record { ref_time = r + w; proof_size = 0 };
    writes = λ w. record { ref_time = w; proof_size = 0 };
  };
  recover_signer = λ t. some 1;
  pre_transactions = λ b. [];
  surroundings = λ w. surroundings;
}

on_finalize-find_log_example :
    (b : Block counting) × ((on_finalize config 8 8 (0, start)).1.current_block ≡ some b)
    × (find_log decoder (on_finalize config 8 8 (0, start)).1.digest ≡ ok (announced config none b))
on_finalize-find_log_example = on_finalize-find_log config (λ l. (refl, refl)) none 8 8 0 start refl

abbrev inputs : List (Input config)
inputs =
    record { world = 0; queue = outside.pending.empty; digest = [] }
    ∷ record { world = 1; queue = outside.pending.empty; digest = [] }
    ∷ []

finalize_all-Linked_example :
    Linked config
      (finalize_all config 5 inputs start).block_hash
      6
      5
      0
      (blocks config 5 inputs start)
finalize_all-Linked_example = finalize_all-Linked config 5 inputs start (omega arith) (omega arith)
