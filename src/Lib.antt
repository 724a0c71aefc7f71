-- ===== src/Lib.antt =====
-- The repository is a set of independent programs in C, one for each exercise. Each program
-- that is modelled is a module here, with child modules for its parts; Common holds what they
-- share: lists and slices of them, signed integers, exclusive or on numbers, and decimal text,
-- over the native natural numbers. The programs share no state; only Analyzer uses the module
-- of another, Logger, whose library it links.
--
-- Driver: hw14-driver/mouse_driv.c, a character device over a ring buffer. Driver.Ring has the
-- record of struct ring_buffer with ring_buffer_write and ring_buffer_read; Driver.Events has
-- simulate_mouse_data and the file operations, Driver.Sysfs the attributes, Driver.Lifecycle
-- the loading and the unloading, Driver.Session calls of the device in sequence, and
-- Driver.Kernel the outcomes of the kernel's calls. A handler takes the buffer and gives it
-- back; an outcome of the kernel (an allocation, a copy from or to the user, a random number)
-- is an argument. Sizes are natural numbers, and the place where the source's unsigned
-- subtraction wraps around is written out.
--
-- Crc32: hw09-crc32/main.c, the checksum by a table of 256 words (Crc32.Table), as the source
-- lists them, and what the program prints of a file (Crc32.Print). Words are natural numbers
-- below 2 to the 32.
--
-- Tetris: hw17-tetris/game.c, hw17-tetris/scoreboard.c and a part of hw17-tetris/main.c.
-- Tetris.Pieces has tetrominoes and rotate, Tetris.Game the record of the globals with
-- check_position, move_down, place_to_arena and handle_input, Tetris.Lines check_lines,
-- Tetris.Moves the loop of run_game, Tetris.Draw the text of draw_arena and Tetris.Scoreboard
-- the table, with the file that it is saved to and the part of hw17-tetris/main.c about it in
-- Tetris.Scoreboard.File. The arena is a function of column and row. What the loop meets (keys,
-- the clock, rand) is a list of frames. check_lines runs on fuel: the arena has 20 rows and 200
-- cells, a removed line takes ten cells, so that 221 rounds are more than it can make; its
-- theorem is about the end of the loop. The theorem of run_game holds after every number of
-- frames. The score is an int, whose overflow wraps around.
--
-- Threads: hw10-threads/topn_container.c and hw10-threads/main.c. Threads.Topn has the
-- container with its operations, each one step since it runs under the container's mutex,
-- Threads.Files the lists of the threads, and Threads.Parser what a line of a log adds
-- (hw10-threads/stat_parser.c), where the match of the regular expression is an argument. The
-- functions of GLib are the fields of a record in Threads.Glib, with what their documentation
-- says of them, and Threads.Lists has functions that satisfy it. The cut to the capacity runs
-- on the length of the list as its fuel: each round removes an item. Threads.GetStat has
-- get_stat as a list of steps on the shared statistics, and a step of the system is the next
-- step of any thread. Threads.Program has the arguments of main, with no result for a path that
-- is too long for its array, the list of hw10-threads/file_list.c and the output, and
-- Threads.Selftest the tests of topn_test. Indices stay below 2 to the 31, where the source
-- takes them as int; values keep the wrap-around of an int.
--
-- Rarjpeg: hw01-rarjpeg/main.c, the search of a picture for an archive after it. A file is the
-- list of its bytes not yet read; the search runs on the number of bytes as its fuel, of which
-- each round reads one. After a signature the source reads one element past its array: what it
-- finds there is the argument beyond.
--
-- Analyzer: dpdk-analyzer/main.c, the counters of received packets. A packet is a record of
-- what the program reads of its headers, and the loop of main takes a list of bursts, each with
-- the value of force_quit that its test meets; when the list ends without it, the loop is still
-- running. The counters keep 64 bits. Analyzer.Program has main, with the results of the
-- library's calls as an argument and the log of the packets through Logger.
--
-- Asm: hw03-asm/main.c, a linked list. Asm.Memory has the memory, a function from addresses to
-- elements with the allocator as an argument, and Asm the functions of the program, each of
-- which gives a result, a fault when it uses memory that is not allocated, or the end of its
-- fuel. m and f run on one more than the number of elements as their fuel; Asm.Whole shows that
-- it is enough. Asm.Chain describes a list that lies in memory.
--
-- WebServer: hw12-webserver/main.c. WebServer.Request has the request record with read_req and
-- parse_url, WebServer.Response the pages and write_res, WebServer.Loop the loop over the
-- events of epoll, WebServer.Start the arguments and the start of main. What recv gives is a
-- list of results; the model of read_req has no value while the source still waits for more of
-- them. The calls of send and sendfile are gathered in the state.
--
-- Weather: hw02-weather/main.c, with the transfers of libcurl as an argument. A city that is
-- too long for the buffer of its address ends the run, with no output. Weather.Report has main
-- and what is printed of an answer, with the functions of json-c as the fields of a record.
--
-- Database: hw15-database/main.c. The statements are texts, cut to the buffer of the source,
-- and a database is a function from a statement to the rows that it gives. An int keeps its
-- wrap-around.
--
-- DirView: hw06-gtk/main.c, the directory tree of a tree view. The file system is a function
-- from a path to the entries of a directory, and the tree store is the list of its rows, each
-- with the place of its parent. The recursion runs on fuel, of which one more than the depth of
-- the directories is enough.
--
-- Logger: hw07-logger/logger/logger.c, with the programs hw07-logger/app/main.c and
-- hw07-logger/logger/main.c. A logger is the text of its file, if it is open. The library is
-- used by dpdk-analyzer too.
--
-- Daemon: hw08-daemon/main.c. What GLib's key file gives for a key is an argument, a text or a
-- null pointer with what g_error_matches says then; so are the results of accept and stat.
-- Daemon.Process has daemonize, on the open files of a process, with the results of the
-- system's calls as an argument, and main goes on as the process that it leaves. A path that is
-- too long for its buffer is an end of its own, after which nothing is said.
--
-- Telnet: hw11-telnet/main.c. What recv gives is a list of parts, of which a call takes no more
-- than there is room for; a loop has no end while it waits for more.
--
-- Cube: hw16-cube/main.c. The loop of main takes the events of each round, and a frame is the
-- list of OpenGL's calls. What SDL and OpenGL answer before the loop is an argument.
--
-- Not modelled: system calls and output (files, sockets, signals, the terminal), the calls of
-- libraries (GTK, libcurl, json-c, SQLite, DPDK, PCRE), and the programs hw04, hw05 and hw13,
-- which consist of them. In hw17-tetris the prompts of main, in hw08-daemon the handler of
-- SIGQUIT.
pub mod Common
pub mod Driver
pub mod Crc32
pub mod Tetris
pub mod Threads
pub mod Rarjpeg
pub mod Analyzer
pub mod Asm
pub mod WebServer
pub mod Weather
pub mod Database
pub mod DirView
pub mod Logger
pub mod Daemon
pub mod Telnet
pub mod Cube
