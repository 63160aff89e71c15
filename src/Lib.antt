-- ===== src/Lib.antt =====
-- Verification of the Go code of this repository: the parser that peg generates, the scanner and parser
-- of its grammars, the juggler protocol over websockets, and the lexer.
--
-- Peg/Runtime is about peg/builder/static_code.go, the code that the generator copies into every
-- parser. Syntax has the nodes of a grammar, Errors the list of errors, State the parser's fields with
-- pushV, popV, read, save and restore, Matchers the matchers of runes, Engine the methods from
-- parseRule to parseZeroOrOneExpr, and Parse the entry points. A method takes the parser and returns an
-- outcome: a value, the flag that tells whether the expression matched and the parser behind it, or
-- a panic. Code blocks are numbers, and the record Env says what they do; Env also stands for UTF-8,
-- letter case, Unicode tables, the printing of numbers and the growth of slices. Frame,
-- EndOfInput and Literals are about these methods. Semantics has parsing expressions as a relation on
-- offsets, without a parser, and its children lead from the methods to this relation.
--
-- The methods call each other without a bound, so parse_expr and the loops take fuel, which bounds the
-- depth of the calls and the rounds of each loop. A run without enough of it has the outcome
-- out_of_fuel, which no returning run has; the loops of a grammar may run for ever, so that no fuel
-- is enough for all grammars, and the theorems hold at any fuel.
--
-- Peg/Ast has the syntax tree of peg/ast/ast.go, and CharClass the parse of a character class.
-- Peg/Builder is about peg/builder/builder.go, which writes the text of a generated parser. The builder is
-- a state with the texts that its writer was given; what the writer returns is a function of these. Nodes has
-- the functions that write the grammar and number its nodes, Code those that write the code blocks with
-- the stack of argument names, and build_parser. A panic is none. Lowered has the nodes as values, numbered
-- by their place in the tree, with the texts that stand for them; Functions has the functions of code blocks
-- by their scopes. The children Emits of Nodes and Functions and Delivers lead from the builder to these,
-- and Indices and Links are about the names of functions.
-- Bootstrap is about peg/bootstrap, the scanner and the parser of grammar files that are written by
-- hand. Token is token.go; Scanner is scan.go, with the methods that the others share in the file itself,
-- identifiers, comments, code blocks and raw strings in Bodies, literals and classes in Quoted, and Scan
-- in Scan; Parser is parser.go, with the methods on expressions in Expr and those on rules in
-- Rules. A scanner is a state with the runes that its reader will return, and with the errors that its
-- handler was called with. A parser is a state over any scanner, which is a function from its state to a
-- token and the next state. Strings, numbers and UTF-8 are records of functions, since they are Go's
-- library. The loops of the scanner are repetitions of a round (Base/Loop) on fuel; Progress shows that
-- fuel for twice the runes that are left is enough; Comments and Blocks are about the texts of comments and
-- code blocks. Files joins the two, with a scanner that carries the proof
-- that its next scan ends. The methods of the parser take fuel for the rounds of
-- each loop and for the depth of parentheses. Parser/Concrete and Parser/Written have grammars as they are
-- written, with their tokens and trees, and RoundTrip leads from these tokens through the methods of the
-- parser, from primary expressions to the whole file; the size of the grammar is enough fuel.
--
-- Juggler/Msg is about juggler/msg: message types and their constructors (Create), the table of names
-- (Registry), and the check of received messages (Unmarshal), over a JSON decoder that is a record of
-- functions. Juggler/Conn and Juggler/Handler are about juggler/conn.go and juggler/handler.go: a
-- connection is a record with a log of what was done to it; doWrite and ProcessMsg append to the log.
-- The brokers, the websocket writer and the write lock are records of functions, since they stand
-- outside of these files. Juggler/Client is about juggler/client/client.go: the table of
-- pending calls. Each critical section of the client is one step, and the interleavings of goroutines
-- are the lists of such steps. Client/Requests has the requests that the client makes, as what they do in
-- order. Juggler/Callee is about juggler/callee/callee.go: Listen, with what is
-- stored for each call that it receives, on a clock and a broker that are functions. Juggler/Broker is about
-- juggler/broker/redisbroker: the scripts and Call, Result and Publish on a Redis server that is a record of
-- functions on its state, and in Streams the goroutines that read calls, results and events, a round at a
-- time; a request may fail before it is done or behind it. Laws states what the documentation of Redis says
-- of its commands. Queue has the abstract view of the
-- calls for a URI, with an event for each call, for each round of the reader and for what else happens to the
-- server. Juggler/Loops is about the goroutines of a connection in juggler/conn.go, on the list of what
-- they receive, and Juggler/Server about juggler/server.go, as the list of what ServeConn and Upgrade do.
--
-- Lexer is about parser/lexer/lex.go and grammar.go: Scan has the lexer with the runes that its reader
-- will return, Predicates the predicates of runes. The loops SkipWhile and SkipUntil take fuel; one
-- more than the runes that are left is enough. Run has the loop over state functions, with fuel for its
-- rounds, and Json the state functions of parser/lexer/json/json.go.
--
-- Base has the Boolean tests, texts (lists of codes), lists over the native numbers and integers.
--
-- Not modelled: the debug output of the parser, what only calls a library of websockets, the commands,
-- and the generated parsers, which are copies. A slice of the parser's input that stops behind its
-- end, but within the capacity of the array, is taken for a panic. Wrap-around of line, column and
-- offset is not modelled: an offset is within the input, whose length is an int.
pub mod Base
pub mod Peg
pub mod Juggler
pub mod Lexer
pub mod Bootstrap
