-- ===== src/Tests/Data.antt =====
-- The worlds of the tests: a test at address 0 with its helper at 0, and the helper of an attempt at 1.
use maistra_test_tool.World.{
  World, TestingT, TestHelper, RetryTestHelper, Invocation, Reply, plain, retry,
}
use maistra_test_tool.Prelude.{false, Option, none, some, List, [], ◌==◌, if◌then◌else◌}
use maistra_test_tool.Text.{Text, lit}
use maistra_test_tool.Prelude.Int.{pos}

abbrev pub the_helper : TestHelper
the_helper = record { t = 0; current_step = 0 }

abbrev pub an_attempt : RetryTestHelper
an_attempt = record {
  helper = the_helper;
  failed = false;
  attempt = pos 0;
  max_attempts = pos 3;
  log_buffer = [];
}

-- A shell that answers all commands in the same way.
abbrev pub always : Text → Option Text → List Invocation → Reply
always output error trace = record { output = output; error = error; took = 7 }

abbrev pub some_test : TestingT
some_test = record {
  name = lit "TestBookinfo";
  ancestors = [];
  failed = false;
  skipped = false;
  output = [];
}

abbrev pub world : Text → Option Text → World
world output error = record {
  outside = record {
    shell = always output error;
    quote = λ s. s;
    seconds = λ n. lit "0.00";
    duration = λ d. lit "1s";
    timestamp = λ n. lit "20240101000000";
    format_alone = λ s. s;
    working_dir = some (lit "/work/pkg/tests/ossm");
    init_time = 0;
    file = λ s. none;
    diff = λ a b. [];
  };
  ts = λ a. some_test;
  next_t = 1;
  helpers = λ h. if h == 1 then retry an_attempt else plain the_helper;
  next_helper = 2;
  env = λ key. none;
  clock = 0;
  trace = [];
  setup_log = [];
  found_pod = ([], []);
  address_pool = [];
  tempo_existed_before = false;
  otel_existed_before = false;
  diff_body = none;
}

-- The cluster answers, and it does not.
abbrev pub online : World
online = world (lit "configured") none

abbrev pub offline : World
offline = world [] (some (lit "exit status 1"))
